-- ===== src/Services/TxOperations.antt =====
-- server/services/transactionsTransformer.go: the operations of each kind of transaction, before the
-- events are looked at.
use rosetta_images.Base.{
  ℕ, Bool, not, some, List, [], ◌∷◌, ◌++◌, Bytes, Result, ok, ◌>>=◌, ◌&&◌, if◌then◌else◌,
}
use rosetta_images.Text.Decimal.{format, format_ℤ}
use rosetta_images.Failure.{Failure}
use rosetta_images.Api.{Libraries, ApiTransaction, ApiReceipt, InnerTransaction}
use rosetta_images.Rosetta.{Operation, Transaction}
use rosetta_images.Provider.RelayedV3.{is_relayed_tx_v3}
use rosetta_images.Services.Interface.{NetworkProvider}
use rosetta_images.Services.OpTypes
use rosetta_images.Services.Common.{is_non_zero_amount, is_zero_big_int_or_nil}
use rosetta_images.Services.Converters.{hash_to_transaction_identifier}
use rosetta_images.Services.Extension.{value_to_native_amount}
use rosetta_images.Services.Metadata.{extract_transaction_metadata}
use rosetta_images.Services.Relayed.{is_relayed_v1_transaction, parse_inner_tx_of_relayed_v1}
use rosetta_images.Services.Features.{
  is_smart_contract_result_ineffective_refund,
  does_contract_result_hold_rewards_of_claim_developer_rewards,
  is_contract_deployment_with_signal_error_or_intrashard_contract_call_with_signal_error,
  is_relayed_v1_transaction_completely_intrashard_with_signal_error,
  is_invalid_transaction_of_type_move_balance_that_only_consumes_data_movement_gas,
}
use rosetta_images.Services.Operations.{new_operation, index_operations}

unfoldable pub decide_fee_payer : ApiTransaction → Bytes
decide_fee_payer tx = if is_relayed_tx_v3 tx then tx.relayer_address else tx.sender

module _ (provider : NetworkProvider) where
  unfoldable pub are_claim_developer_rewards_events_enabled : ℕ → Bool
  are_claim_developer_rewards_events_enabled epoch = provider.is_release_spica_active epoch

  -- An operation that moves an amount of the native currency.
  abbrev pub native_operation : Bytes → Bytes → Bytes → Operation
  native_operation op_type address value =
      new_operation op_type address (value_to_native_amount provider value)

  -- The two operations of a transfer: a debit of `value`, then a credit of `value`.
  abbrev pub native_transfer : Bytes → Bytes → Bytes → Bytes → List Operation
  native_transfer op_type sender receiver value =
      native_operation op_type sender (b'-' ∷ value) ∷ native_operation op_type receiver value ∷ []

  unfoldable pub reward_tx_to_rosetta_tx : ApiTransaction → Transaction
  reward_tx_to_rosetta_tx tx = record {
    transaction_identifier = hash_to_transaction_identifier tx.hash;
    operations = native_operation OpTypes.reward tx.receiver tx.value ∷ [];
    metadata = [];
  }

  unfoldable pub refund_receipt_to_rosetta_tx : ApiReceipt → Result Failure Transaction
  refund_receipt_to_rosetta_tx receipt = do
    receipt_hash ← provider.compute_receipt_hash receipt
    ok (record {
      transaction_identifier = hash_to_transaction_identifier receipt_hash;
      operations =
          native_operation OpTypes.fee_refund receipt.snd_addr (format_ℤ receipt.receipt_value)
          ∷ [];
      metadata = [];
    })

  unfoldable pub mempool_move_balance_tx_to_rosetta_tx : ApiTransaction → Transaction
  mempool_move_balance_tx_to_rosetta_tx tx = record {
    transaction_identifier = hash_to_transaction_identifier tx.hash;
    operations = index_operations (
        if is_non_zero_amount tx.value
        then native_transfer OpTypes.transfer tx.sender tx.receiver tx.value
        else []);
    metadata = extract_transaction_metadata tx;
  }

module _ ⦃lib : Libraries⦄ (provider : NetworkProvider) where
  unfoldable pub unsigned_tx_to_rosetta_tx : ApiTransaction → List ApiTransaction → Transaction
  unsigned_tx_to_rosetta_tx scr txs_in_block =
      if is_smart_contract_result_ineffective_refund provider scr
      then record {
        transaction_identifier = hash_to_transaction_identifier scr.hash;
        operations = [];
        metadata = [];
      }
      else if scr.is_refund
      then record {
        transaction_identifier = hash_to_transaction_identifier scr.hash;
        operations =
            native_operation provider OpTypes.fee_refund_as_sc_result scr.receiver scr.value ∷ [];
        metadata = [];
      }
      else if not (are_claim_developer_rewards_events_enabled provider scr.epoch)
          && does_contract_result_hold_rewards_of_claim_developer_rewards scr txs_in_block
      then record {
        transaction_identifier = hash_to_transaction_identifier scr.hash;
        operations =
            native_operation provider OpTypes.developer_rewards_as_sc_result scr.receiver scr.value
            ∷ [];
        metadata = [];
      }
      else record {
        transaction_identifier = hash_to_transaction_identifier scr.hash;
        operations = native_transfer provider OpTypes.sc_result scr.sender scr.receiver scr.value;
        metadata = extract_transaction_metadata scr;
      }

  unfoldable pub inner_tx_operations : ApiTransaction → InnerTransaction → List Operation
  inner_tx_operations tx inner_tx =
      if is_zero_big_int_or_nil inner_tx.inner_value
      then []
      else if not
          (is_relayed_v1_transaction_completely_intrashard_with_signal_error provider tx inner_tx)
      then []
      else native_transfer provider OpTypes.transfer
          (provider.convert_pub_key_to_address inner_tx.sender_pub_key)
          (provider.convert_pub_key_to_address inner_tx.receiver_pub_key)
          (format_ℤ inner_tx.inner_value)

  unfoldable pub extract_inner_tx_operations_if_before_sirius_relayed_completely_intrashard_with_signal_error :
      ApiTransaction → Result Failure (List Operation)
  unfolding inner_tx_operations
  extract_inner_tx_operations_if_before_sirius_relayed_completely_intrashard_with_signal_error tx =
      if provider.is_release_sirius_active tx.epoch
      then ok []
      else if not (is_relayed_v1_transaction tx)
      then ok []
      else do inner_tx ← parse_inner_tx_of_relayed_v1 tx; ok (inner_tx_operations tx inner_tx)

  -- Whether a normal transaction moves its value.
  unfoldable pub transfers_value : ApiTransaction → Bool
  transfers_value tx =
      if provider.is_release_sirius_active tx.epoch
      then is_non_zero_amount tx.value
        && not (
            is_contract_deployment_with_signal_error_or_intrashard_contract_call_with_signal_error
              tx)
      else is_non_zero_amount tx.value

  unfoldable pub normal_tx_to_rosetta : ApiTransaction → Result Failure Transaction
  unfolding transfers_value
  normal_tx_to_rosetta tx = do
    inner ←
        extract_inner_tx_operations_if_before_sirius_relayed_completely_intrashard_with_signal_error
          tx
    ok (record {
      transaction_identifier = hash_to_transaction_identifier tx.hash;
      operations =
          (if transfers_value tx
            then native_transfer provider OpTypes.transfer tx.sender tx.receiver tx.value
            else [])
          ++ native_operation provider OpTypes.fee (decide_fee_payer tx)
              (b'-' ∷ tx.initially_paid_fee)
            ∷ inner;
      metadata = extract_transaction_metadata tx;
    })

  unfoldable pub fee_of_invalid_tx : ApiTransaction → Bytes
  fee_of_invalid_tx tx =
      if is_invalid_transaction_of_type_move_balance_that_only_consumes_data_movement_gas tx
      then format (provider.compute_transaction_fee_for_move_balance tx)
      else tx.initially_paid_fee

  abbrev pub failed : Operation → Operation
  failed operation = record operation { status = some OpTypes.status_failure }

  unfoldable pub invalid_tx_to_rosetta_tx : ApiTransaction → Transaction
  unfolding fee_of_invalid_tx
  invalid_tx_to_rosetta_tx tx = record {
    transaction_identifier = hash_to_transaction_identifier tx.hash;
    operations =
        failed (native_operation provider OpTypes.transfer tx.sender (b'-' ∷ tx.value))
        ∷ failed (native_operation provider OpTypes.transfer tx.receiver tx.value)
        ∷ native_operation provider OpTypes.fee_of_invalid_tx (decide_fee_payer tx)
            (b'-' ∷ fee_of_invalid_tx tx)
        ∷ [];
    metadata = extract_transaction_metadata tx;
  }
