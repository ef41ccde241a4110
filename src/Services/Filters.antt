-- ===== src/Services/Filters.antt =====
-- server/services/transactionFilters.go. A `map[string]struct{}` is the list of its keys.
pub mod Exact
use rosetta_images.Base.{Bool, not, List, map, Bytes, ◌==◌, bytes_eq, ◌&&◌, is_empty, keep, any}
use rosetta_images.Api.{Libraries, ApiTransaction}
use rosetta_images.Rosetta.{Transaction}
use rosetta_images.Services.Relayed.{is_relayed_v1_transaction}

module _ ⦃lib : Libraries⦄ where
  unfoldable pub invalid_txs : List ApiTransaction → List Bytes
  invalid_txs txs = map (λ tx. tx.hash) (keep (λ tx. tx.tx_type == lib.tx_type_invalid) txs)

  unfoldable pub holds_hash : List Bytes → Bytes → Bool
  holds_hash hashes hash = any (λ h. h == hash) hashes

  unfoldable pub filter_out_intrashard_contract_results_whose_original_transaction_is_in_invalid_miniblock :
      List ApiTransaction → List ApiTransaction
  filter_out_intrashard_contract_results_whose_original_transaction_is_in_invalid_miniblock txs =
      keep
        (λ tx. not (
          tx.tx_type == lib.tx_type_unsigned
          && holds_hash (invalid_txs txs) tx.original_transaction_hash))
        txs

  unfoldable pub filter_out_intrashard_relayed_transaction_already_held_in_invalid_miniblock :
      List ApiTransaction → List ApiTransaction
  filter_out_intrashard_relayed_transaction_already_held_in_invalid_miniblock txs =
      keep (λ tx. not (is_relayed_v1_transaction tx && holds_hash (invalid_txs txs) tx.hash)) txs

unfoldable pub filter_out_rosetta_transactions_with_no_operations :
    List Transaction → List Transaction
filter_out_rosetta_transactions_with_no_operations = keep (λ tx. not (is_empty tx.operations))
