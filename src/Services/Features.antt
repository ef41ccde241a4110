-- ===== src/Services/Features.antt =====
-- server/services/transactionsFeaturesDetector.go
use rosetta_images.Base.{
  Bool, false, not, List, ◌==◌, bytes_eq, nat_eq, ◌&&◌, ◌||◌, ltb, is_empty, any, if◌then◌else◌,
}
use rosetta_images.Api.{Libraries, ApiTransaction, InnerTransaction}
use rosetta_images.Services.Interface.{NetworkProvider}
use rosetta_images.Services.Constants.{
  processing_type_built_in_function_call, processing_type_move_balance,
  processing_type_contract_invoking, processing_type_contract_deployment,
}
use rosetta_images.Services.Extension.{is_contract_address}
use rosetta_images.Services.EventsController.{
  has_any_signal_error, has_signal_error_of_sending_value_to_non_payable_contract,
  has_signal_error_of_meta_transaction_is_invalid,
}

unfoldable pub is_intrashard : ApiTransaction → Bool
is_intrashard tx = tx.source_shard == tx.destination_shard

module _ ⦃lib : Libraries⦄ where
  unfoldable pub does_contract_result_hold_rewards_of_claim_developer_rewards :
      ApiTransaction → List ApiTransaction → Bool
  does_contract_result_hold_rewards_of_claim_developer_rewards scr txs =
      if not (is_empty scr.tx_data) || ltb 0 scr.nonce
      then false
      else any
          (λ tx.
            tx.processing_type_on_source == processing_type_built_in_function_call
            && (tx.processing_type_on_destination == processing_type_built_in_function_call
                && (tx.operation == lib.builtin_claim_developer_rewards
                    && tx.hash == scr.original_transaction_hash)))
          txs

  unfoldable pub is_invalid_transaction_of_type_move_balance_that_only_consumes_data_movement_gas :
      ApiTransaction → Bool
  is_invalid_transaction_of_type_move_balance_that_only_consumes_data_movement_gas tx =
      let is_invalid = tx.tx_type == lib.tx_type_invalid in
      let is_move_balance =
        tx.processing_type_on_source == processing_type_move_balance
        && tx.processing_type_on_destination == processing_type_move_balance in
      if not is_invalid || not is_move_balance
      then false
      else has_signal_error_of_sending_value_to_non_payable_contract tx
        || has_signal_error_of_meta_transaction_is_invalid tx

  unfoldable pub is_contract_deployment_with_signal_error : ApiTransaction → Bool
  is_contract_deployment_with_signal_error tx =
      tx.processing_type_on_source == processing_type_contract_deployment
      && (tx.processing_type_on_destination == processing_type_contract_deployment
          && has_any_signal_error tx)

  unfoldable pub is_contract_call_with_signal_error : ApiTransaction → Bool
  is_contract_call_with_signal_error tx =
      tx.processing_type_on_source == processing_type_contract_invoking
      && (tx.processing_type_on_destination == processing_type_contract_invoking
          && has_any_signal_error tx)

  unfoldable pub is_contract_deployment_with_signal_error_or_intrashard_contract_call_with_signal_error :
      ApiTransaction → Bool
  is_contract_deployment_with_signal_error_or_intrashard_contract_call_with_signal_error tx =
      is_contract_deployment_with_signal_error tx
      || is_intrashard tx && is_contract_call_with_signal_error tx

  module _ (provider : NetworkProvider) where
    unfoldable pub is_relayed_v1_transaction_completely_intrashard_with_signal_error :
        ApiTransaction → InnerTransaction → Bool
    is_relayed_v1_transaction_completely_intrashard_with_signal_error tx inner_tx =
        let inner_sender_shard = provider.compute_shard_id_of_pub_key inner_tx.sender_pub_key in
        let inner_receiver_shard = provider.compute_shard_id_of_pub_key inner_tx.receiver_pub_key in
        let is_completely_intrashard =
          tx.source_shard == tx.destination_shard
          && (inner_sender_shard == inner_receiver_shard
              && inner_sender_shard == tx.source_shard) in
        if not is_completely_intrashard then false else has_any_signal_error tx

    unfoldable pub is_smart_contract_result_ineffective_refund : ApiTransaction → Bool
    is_smart_contract_result_ineffective_refund scr =
        scr.is_refund && (scr.sender == scr.receiver && is_contract_address provider scr.sender)
