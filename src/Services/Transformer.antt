-- ===== src/Services/Transformer.antt =====
-- server/services/transactionsTransformer.go: from the transactions of a block to Rosetta
-- transactions.
pub mod Finished
pub mod Ledger
pub mod EventLedger
pub mod EventValues
pub mod Balance
pub mod Movements
use rosetta_images.Base.{
  List, ◌++◌, map, flat_map, Result, ok, err, ◌>>=◌, ◌==◌, bytes_eq, if◌then◌else◌, keep, traverse,
}
use rosetta_images.Failure.{Failure, unknown_transaction_type}
use rosetta_images.Api.{Libraries, ApiTransaction, ApiReceipt, MiniBlock, Block}
use rosetta_images.Rosetta.{Transaction}
use rosetta_images.Services.Interface.{NetworkProvider}
use rosetta_images.Services.Constants.{refund_gas_message}
use rosetta_images.Services.Filters.{
  filter_out_intrashard_contract_results_whose_original_transaction_is_in_invalid_miniblock,
  filter_out_intrashard_relayed_transaction_already_held_in_invalid_miniblock,
  filter_out_rosetta_transactions_with_no_operations,
}
use rosetta_images.Services.Operations.{
  filter_operations_by_address, filter_out_operations_with_zero_amount,
  apply_default_status_on_operations,
}
use rosetta_images.Services.TxOperations.{
  normal_tx_to_rosetta, reward_tx_to_rosetta_tx, unsigned_tx_to_rosetta_tx,
  invalid_tx_to_rosetta_tx, refund_receipt_to_rosetta_tx,
}
use rosetta_images.Services.EventOperations.{add_operations_given_transaction_events}

module _ ⦃lib : Libraries⦄ (provider : NetworkProvider) where
  -- The `switch` on the type of the transaction.
  unfoldable pub dispatch_tx : ApiTransaction → List ApiTransaction → Result Failure Transaction
  dispatch_tx tx txs_in_block =
      if tx.tx_type == lib.tx_type_normal
      then normal_tx_to_rosetta provider tx
      else if tx.tx_type == lib.tx_type_reward
      then ok (reward_tx_to_rosetta_tx provider tx)
      else if tx.tx_type == lib.tx_type_unsigned
      then ok (unsigned_tx_to_rosetta_tx provider tx txs_in_block)
      else if tx.tx_type == lib.tx_type_invalid
      then ok (invalid_tx_to_rosetta_tx provider tx)
      else err (unknown_transaction_type tx.tx_type)

  unfoldable pub tx_to_rosetta_tx :
      ApiTransaction → List ApiTransaction → Result Failure Transaction
  tx_to_rosetta_tx tx txs_in_block = do
    rosetta_tx ← dispatch_tx tx txs_in_block
    add_operations_given_transaction_events provider tx rosetta_tx

-- The transactions of all miniblocks; each gets the nonce of the block.
unfoldable pub gather_txs : Block → List ApiTransaction
gather_txs block =
    flat_map
      (λ (miniblock : MiniBlock).
        map (λ (tx : ApiTransaction). record tx { block_nonce = block.nonce })
          miniblock.transactions)
      block.mini_blocks

unfoldable pub gather_receipts : Block → List ApiReceipt
gather_receipts block = flat_map (λ (miniblock : MiniBlock). miniblock.receipts) block.mini_blocks

module _ (provider : NetworkProvider) where
  -- The last loop: what is not observed or is zero goes, and every operation gets a status.
  unfoldable pub finish_tx : Transaction → Result Failure Transaction
  finish_tx rosetta_tx = do
    filtered ← filter_operations_by_address provider.is_address_observed rosetta_tx.operations
    ok (record rosetta_tx {
      operations =
          apply_default_status_on_operations (filter_out_operations_with_zero_amount filtered);
    })

module _ ⦃lib : Libraries⦄ (provider : NetworkProvider) where
  unfoldable pub effective_txs : Block → List ApiTransaction
  effective_txs block =
      filter_out_intrashard_relayed_transaction_already_held_in_invalid_miniblock (
        filter_out_intrashard_contract_results_whose_original_transaction_is_in_invalid_miniblock
          (gather_txs block))

  unfoldable pub transform_block_txs : Block → Result Failure (List Transaction)
  transform_block_txs block = do
    let txs = effective_txs block
    of_txs ← traverse (λ tx. tx_to_rosetta_tx provider tx txs) txs
    of_receipts ←
        traverse (refund_receipt_to_rosetta_tx provider)
          (keep (λ receipt. receipt.receipt_data == refund_gas_message) (gather_receipts block))
    finished ← traverse (finish_tx provider) (of_txs ++ of_receipts)
    ok (filter_out_rosetta_transactions_with_no_operations finished)
