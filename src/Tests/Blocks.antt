-- ===== src/Tests/Blocks.antt =====
-- Transactions of a block, filtered, and the epochs of the history.
use rosetta_images.Base.{◌≡◌, true, ◌+◌, ◌≤◌, ◌↔◌, ◌⊎◌, List, [], ◌∷◌, codes, Memᴰ}
use rosetta_images.Api.{ApiTransaction}
use rosetta_images.Services.Relayed.{is_relayed_v1_transaction}
use rosetta_images.Services.Filters.{
  filter_out_intrashard_contract_results_whose_original_transaction_is_in_invalid_miniblock,
  filter_out_intrashard_relayed_transaction_already_held_in_invalid_miniblock,
}
use rosetta_images.Services.Filters.Exact.{
  HasInvalid, filter_out_contract_results_lem, filter_out_relayed_transactions_lem,
}
use rosetta_images.Provider.NodeStatus.{get_oldest_eligible_epoch, get_oldest_eligible_epoch_lem}
use rosetta_images.Tests.Sample.{sample_libraries, blank}

abbrev invalid : ApiTransaction
invalid = record blank { tx_type = codes "invalid" }

abbrev contract_result : ApiTransaction
contract_result = record blank {
  tx_type = codes "unsigned";
  hash = codes "bb";
  original_transaction_hash = codes "aa";
}

abbrev relayed : ApiTransaction
relayed = record blank {
  processing_type_on_source = codes "RelayedTx";
  processing_type_on_destination = codes "RelayedTx";
}

abbrev txs : List ApiTransaction
txs = invalid ∷ contract_result ∷ relayed ∷ []

filter_out_contract_results_lem_example :
    Memᴰ contract_result (
      filter_out_intrashard_contract_results_whose_original_transaction_is_in_invalid_miniblock txs)
    ↔ (Memᴰ contract_result txs
        × ¬ ((codes "unsigned" ≡ codes "unsigned") × HasInvalid txs (codes "aa")))
filter_out_contract_results_lem_example = filter_out_contract_results_lem txs contract_result

filter_out_relayed_transactions_lem_example :
    Memᴰ relayed (filter_out_intrashard_relayed_transaction_already_held_in_invalid_miniblock txs)
    ↔ (Memᴰ relayed txs
        × ¬ ((is_relayed_v1_transaction relayed ≡ true) × HasInvalid txs (codes "aa")))
filter_out_relayed_transactions_lem_example = filter_out_relayed_transactions_lem txs relayed

get_oldest_eligible_epoch_lem_example :
    (3 ≤ get_oldest_eligible_epoch 3 4 20)
    × ((get_oldest_eligible_epoch 3 4 20 ≡ 3) ⊎ (get_oldest_eligible_epoch 3 4 20 + 4 ≡ 20))
    × (3 ≤ 20 → get_oldest_eligible_epoch 3 4 20 ≤ 20)
    × (3 ≤ 20 → 20 ≤ get_oldest_eligible_epoch 3 4 20 + 4)
get_oldest_eligible_epoch_lem_example = get_oldest_eligible_epoch_lem 3 4 20
