-- ===== src/Provider/Scheduled.antt =====
-- server/provider/scheduledMiniblocks.go: the transactions whose effects are visible in a block.
pub mod Descendants
pub mod ByHash
pub mod Effective
pub mod Gathered
use rosetta_images.Base.{
  ℕ, zero, suc, Bool, not, Option, none, some, List, [], ◌∷◌, ◌++◌, map, flat_map, Bytes, Dict,
  codes, ◌==◌, nat_eq, bytes_eq, if◌then◌else◌, is_empty, ◌&&◌, keep, lookup, insert, delete,
}
use rosetta_images.Api.{Libraries, ApiTransaction, ApiReceipt, MiniBlock, Block}

unfoldable pub gather_all_transactions : Block → List ApiTransaction
gather_all_transactions block =
    flat_map (λ (miniblock : MiniBlock). miniblock.transactions) block.mini_blocks

unfoldable pub gather_all_receipts : Block → List ApiReceipt
gather_all_receipts block =
    flat_map (λ (miniblock : MiniBlock). miniblock.receipts) block.mini_blocks

unfoldable pub gather_scheduled_transactions : ⦃lib : Libraries⦄ → Block → List ApiTransaction
gather_scheduled_transactions ⦃lib⦄ block =
    flat_map
      (λ (miniblock : MiniBlock).
        if miniblock.processing_type == lib.processing_type_scheduled
        then miniblock.transactions
        else [])
      block.mini_blocks

abbrev pub found_or_empty : Option (List ApiTransaction) → List ApiTransaction
found_or_empty none = []
found_or_empty (some txs) = txs

-- A missing key of a Go map reads as an empty list.
abbrev pub results_of : Bytes → Dict (List ApiTransaction) → List ApiTransaction
results_of hash m = found_or_empty (lookup hash m)

-- The loop that prepares the look-up by the "previous transaction hash" link.
unfoldable pub direct_results_from :
    Dict (List ApiTransaction) → List ApiTransaction → Dict (List ApiTransaction)
direct_results_from m [] = m
direct_results_from m (item ∷ items) =
    direct_results_from
      (insert item.previous_transaction_hash
        (results_of item.previous_transaction_hash m ++ item ∷ []) m)
      items

unfoldable pub direct_contract_results_by_hash : List ApiTransaction → Dict (List ApiTransaction)
direct_contract_results_by_hash items = direct_results_from [] items

infixl 5 ◌>>=?◌
abbrev pub ◌>>=?◌ :
    Option (List ApiTransaction)
    → (List ApiTransaction → Option (List ApiTransaction))
    → Option (List ApiTransaction)
none >>=? f = none
some txs >>=? f = f txs

-- The loop over the direct results; `descend` is the recursive call.
unfoldable pub retain_results :
    (ApiTransaction → Option (List ApiTransaction))
    → ℕ
    → List ApiTransaction
    → Option (List ApiTransaction)
retain_results descend self_shard [] = some []
retain_results descend self_shard (r ∷ rs) =
    let others = retain_results descend self_shard rs in
    if not (r.source_shard == self_shard)
    then others
    else descend r >>=? λ part. others >>=? λ rest. some (r ∷ part ++ rest)

-- The recursion follows the links of the look-up; `none` means that the fuel ran out.
unfoldable pub find_immediately_executing_contract_results_of_transaction :
    ℕ → ℕ → ApiTransaction → Dict (List ApiTransaction) → Option (List ApiTransaction)
find_immediately_executing_contract_results_of_transaction zero self_shard tx m = none
find_immediately_executing_contract_results_of_transaction (suc fuel) self_shard tx m =
    retain_results
      (λ r. find_immediately_executing_contract_results_of_transaction fuel self_shard r m)
      self_shard (results_of tx.hash m)

-- The loop over the transactions.
unfoldable pub results_of_transactions :
    ℕ → ℕ → List ApiTransaction → Dict (List ApiTransaction) → Option (List ApiTransaction)
results_of_transactions fuel self_shard [] m = some []
results_of_transactions fuel self_shard (tx ∷ txs) m =
    find_immediately_executing_contract_results_of_transaction fuel self_shard tx m >>=? λ part.
    results_of_transactions fuel self_shard txs m >>=? λ rest. some (part ++ rest)

unfoldable pub find_immediately_executing_contract_results :
    ℕ → ℕ → List ApiTransaction → List ApiTransaction → Option (List ApiTransaction)
find_immediately_executing_contract_results fuel self_shard transactions maybe_contract_results =
    results_of_transactions fuel self_shard transactions
      (direct_contract_results_by_hash maybe_contract_results)

-- The loops that write `effectiveTxsByHash`.
unfoldable pub insert_all : List ApiTransaction → Dict ApiTransaction → Dict ApiTransaction
insert_all [] m = m
insert_all (tx ∷ txs) m = insert_all txs (insert tx.hash tx m)

unfoldable pub delete_all : List ApiTransaction → Dict ApiTransaction → Dict ApiTransaction
delete_all [] m = m
delete_all (tx ∷ txs) m = delete_all txs (delete tx.hash m)

-- Terms (a) to (d) of the source; a loop over no transactions changes nothing.
unfoldable pub effective_txs_by_hash :
    (in_current in_previous previously_executed currently_executed : List ApiTransaction)
    → Dict ApiTransaction
effective_txs_by_hash in_current in_previous previously_executed currently_executed =
    insert_all currently_executed
      (delete_all previously_executed (delete_all in_previous (insert_all in_current [])))

abbrev pub values : Dict ApiTransaction → List ApiTransaction
values = map (λ (entry : Bytes × ApiTransaction). entry.1)

-- `results` of a block, sought only if it has scheduled transactions.
abbrev pub if_scheduled :
    List ApiTransaction → Option (List ApiTransaction) → Option (List ApiTransaction)
if_scheduled [] results = some []
if_scheduled (_ ∷ _) results = results

abbrev pub txs_if_scheduled : List ApiTransaction → List ApiTransaction → List ApiTransaction
txs_if_scheduled [] txs = []
txs_if_scheduled (_ ∷ _) txs = txs

-- `order` is the order in which Go ranges over the entries of a map.
module _ ⦃lib : Libraries⦄ (order : List ApiTransaction → List ApiTransaction) (fuel : ℕ) where
  unfoldable pub gather_effective_transactions :
      ℕ → (previous current next : Block) → Option (List ApiTransaction)
  gather_effective_transactions self_shard previous current next =
      let in_current = gather_all_transactions current in
      let scheduled_in_previous = gather_scheduled_transactions previous in
      let scheduled_in_current = gather_scheduled_transactions current in
      if is_empty scheduled_in_previous && is_empty scheduled_in_current
      then some in_current
      else if_scheduled scheduled_in_previous (
          find_immediately_executing_contract_results fuel self_shard scheduled_in_previous
            in_current)
        >>=? λ previously_executed.
            if_scheduled scheduled_in_current (
              find_immediately_executing_contract_results fuel self_shard scheduled_in_current
                (gather_all_transactions next))
            >>=? λ currently_executed. some (
                order (
                  values (
                    effective_txs_by_hash in_current
                      (txs_if_scheduled scheduled_in_previous (gather_all_transactions previous))
                      previously_executed currently_executed)))

abbrev artificial_miniblock : List ApiTransaction → List ApiReceipt → MiniBlock
artificial_miniblock txs receipts = record {
  block_type = codes "Artificial";
  processing_type = [];
  transactions = txs;
  receipts = receipts;
}

abbrev pub simplified : Block → Option (List ApiTransaction) → Option Block
simplified block none = none
simplified block (some txs) = some (record block {
  mini_blocks =
      artificial_miniblock txs [] ∷ artificial_miniblock [] (gather_all_receipts block) ∷ [];
})

module _ ⦃lib : Libraries⦄ (order : List ApiTransaction → List ApiTransaction) (fuel : ℕ) where
  unfoldable pub do_simplify_block_with_scheduled_transactions :
      (previous block next : Block) → Option Block
  do_simplify_block_with_scheduled_transactions previous block next =
      simplified block (gather_effective_transactions order fuel block.shard previous block next)
