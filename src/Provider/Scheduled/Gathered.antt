-- ===== src/Provider/Scheduled/Gathered.antt =====
-- server/provider/scheduledMiniblocks.go: `gatherEffectiveTransactions` as a whole, from the blocks
-- to the transactions, with the results that it looks for behind and ahead.
use mathlib.Core.List.{Permᴰ}
use mathlib.Core.List.Permᴰ.{nil, cons, swap, trans}
use mathlib.Core.List.Permᴰ
use rosetta_images.Base.{
  ℕ, ◌≡◌, ◌≢◌, refl, ◌∙◌, ◌⊎◌, inl, inr, ◌↔◌, Option, some, List, [], ◌∷◌, Bytes, ◌&&◌, is_empty,
  if◌then◌else◌, Memᴰ, head, tail,
}
use rosetta_images.Api.{Libraries, ApiTransaction, Block}
use rosetta_images.Provider.Scheduled.{
  gather_all_transactions, gather_scheduled_transactions, gather_effective_transactions,
  find_immediately_executing_contract_results, if_scheduled, txs_if_scheduled, values,
  effective_txs_by_hash, ◌>>=?◌,
}
use rosetta_images.Provider.Scheduled.Descendants.{
  Finds, DescendsFrom, HasDescendingLinks, HasFuel, Memᴰ-of_Descends,
  find_immediately_executing_contract_results_lem,
}
use rosetta_images.Provider.Scheduled.Effective.{
  HashesIdentify, LacksHash, IsEffective, effective_txs_by_hash_lem,
}

Memᴰ-of_Permᴰ :
    {xs ys : List ApiTransaction} {s : ApiTransaction} → Permᴰ xs ys → Memᴰ s xs → Memᴰ s ys
Memᴰ-of_Permᴰ nil m = m
Memᴰ-of_Permᴰ (cons e p) (head d) = head (d ∙ e)
Memᴰ-of_Permᴰ (cons e p) (tail m) = tail (Memᴰ-of_Permᴰ p m)
Memᴰ-of_Permᴰ (swap e d) (head c) = tail (head (c ∙ e))
Memᴰ-of_Permᴰ (swap e d) (tail (head c)) = head (c ∙ d)
Memᴰ-of_Permᴰ (swap e d) (tail (tail m)) = tail (tail m)
Memᴰ-of_Permᴰ (trans p q) m = Memᴰ-of_Permᴰ q (Memᴰ-of_Permᴰ p m)

module _ (self_shard : ℕ) (in_previous in_current in_next : List ApiTransaction) where
  -- The effects of `s` are visible in the current block: it is a result of a scheduled transaction
  -- of the block, executed with it although it stands in the next block; or it stands in the block,
  -- was not executed as a scheduled transaction of the previous block or as a result of one, and
  -- no result of the first kind has its hash.
  abbrev pub IsVisible :
      (scheduled_before scheduled_now : List ApiTransaction) → ApiTransaction → Type 0
  IsVisible scheduled_before scheduled_now s =
      DescendsFrom self_shard in_next scheduled_now s
      ⊎ (Memᴰ s in_current
          × LacksHash s.hash (txs_if_scheduled scheduled_before in_previous)
          × ((t : ApiTransaction)
              → DescendsFrom self_shard in_current scheduled_before t
              → t.hash ≢ s.hash)
          × ((t : ApiTransaction)
              → DescendsFrom self_shard in_next scheduled_now t
              → t.hash ≢ s.hash))

  module _ (order : List ApiTransaction → List ApiTransaction) (fuel : ℕ) (rank : Bytes → ℕ)
      (permutes : (txs : List ApiTransaction) → Permᴰ txs (order txs))
      (current_identify : HashesIdentify in_current) (next_identify : HashesIdentify in_next)
      (current_descending : HasDescendingLinks rank in_current)
      (next_descending : HasDescendingLinks rank in_next) where
    if_scheduled-Finds :
        (items scheduled : List ApiTransaction)
        → HasDescendingLinks rank items
        → HasFuel rank fuel scheduled
        → Finds
            (if_scheduled scheduled
              (find_immediately_executing_contract_results fuel self_shard scheduled items))
            (DescendsFrom self_shard items scheduled)
    if_scheduled-Finds items [] h f = ([], refl, λ s. (λ m. elim m [ ], λ d. elim d.1 [ ]))
    if_scheduled-Finds items (tx ∷ txs) h f =
        find_immediately_executing_contract_results_lem self_shard items rank fuel (tx ∷ txs) h f

    -- The branch of the source that gathers through the map.
    abbrev through_map : (before now : List ApiTransaction) → Option (List ApiTransaction)
    through_map before now =
        if_scheduled before
          (find_immediately_executing_contract_results fuel self_shard before in_current)
        >>=? λ previously_executed.
            if_scheduled now
              (find_immediately_executing_contract_results fuel self_shard now in_next)
            >>=? λ currently_executed. some (
                order (
                  values (
                    effective_txs_by_hash in_current (txs_if_scheduled before in_previous)
                      previously_executed currently_executed)))

    IsVisible-of_IsEffective :
        {before now pe ce : List ApiTransaction} (s : ApiTransaction)
        → ((t : ApiTransaction) → Memᴰ t pe ↔ DescendsFrom self_shard in_current before t)
        → ((t : ApiTransaction) → Memᴰ t ce ↔ DescendsFrom self_shard in_next now t)
        → IsEffective in_current (txs_if_scheduled before in_previous) pe ce s
        → IsVisible before now s
    IsVisible-of_IsEffective s was is (inl m) = inl ((is s).0 m)
    IsVisible-of_IsEffective s was is (inr (m, previous, executed, now)) =
        inr (m, previous, λ t d. executed t ((was t).1 d), λ t d. now t ((is t).1 d))

    IsEffective-of_IsVisible :
        {before now pe ce : List ApiTransaction} (s : ApiTransaction)
        → ((t : ApiTransaction) → Memᴰ t pe ↔ DescendsFrom self_shard in_current before t)
        → ((t : ApiTransaction) → Memᴰ t ce ↔ DescendsFrom self_shard in_next now t)
        → IsVisible before now s
        → IsEffective in_current (txs_if_scheduled before in_previous) pe ce s
    IsEffective-of_IsVisible s was is (inl d) = inl ((is s).1 d)
    IsEffective-of_IsVisible s was is (inr (m, previous, executed, now)) =
        inr (m, previous, λ t n. executed t ((was t).0 n), λ t n. now t ((is t).0 n))

    executed-HashesIdentify :
        {now ce : List ApiTransaction}
        → ((t : ApiTransaction) → Memᴰ t ce ↔ DescendsFrom self_shard in_next now t)
        → HashesIdentify ce
    executed-HashesIdentify is s t ms mt e =
        next_identify s t (Memᴰ-of_Descends self_shard in_next s ((is s).0 ms).2)
          (Memᴰ-of_Descends self_shard in_next t ((is t).0 mt).2) e

    through_map-Finds :
        (before now : List ApiTransaction)
        → HasFuel rank fuel before
        → HasFuel rank fuel now
        → Finds (through_map before now) (IsVisible before now)
    through_map-Finds before now f g =
        let (pe, hp, was) = if_scheduled-Finds in_current before current_descending f in
        let (ce, hc, is) = if_scheduled-Finds in_next now next_descending g in
        let effective =
          effective_txs_by_hash_lem in_current (txs_if_scheduled before in_previous) pe ce
            current_identify (executed-HashesIdentify is) in
        (
          _,
          rw hp (rw hc refl),
          λ s. (
            λ m.
                IsVisible-of_IsEffective s was is
                  ((effective s).0 (Memᴰ-of_Permᴰ (Permᴰ.symm (permutes _)) m)),
            λ v. Memᴰ-of_Permᴰ (permutes _) ((effective s).1 (IsEffective-of_IsVisible s was is v)),
          ),
        )

    -- Without scheduled transactions in the current and the previous block, all of the current
    -- block is visible.
    branches-Finds :
        (before now : List ApiTransaction)
        → HasFuel rank fuel before
        → HasFuel rank fuel now
        → Finds
            (if is_empty before && is_empty now then some in_current else through_map before now)
            (IsVisible before now)
    branches-Finds [] [] f g = (in_current, refl, λ s. (λ m. visible s m, λ v. stands s v))
      where
        visible : (s : ApiTransaction) → Memᴰ s in_current → IsVisible [] [] s
        visible s m = inr (m, λ t n. elim n [ ], λ t d. elim d.1 [ ], λ t d. elim d.1 [ ])

        stands : (s : ApiTransaction) → IsVisible [] [] s → Memᴰ s in_current
        stands s (inl d) = elim d.1 [ ]
        stands s (inr (m, _, _, _)) = m
    branches-Finds [] (tx ∷ txs) f g = through_map-Finds [] (tx ∷ txs) f g
    branches-Finds (tx ∷ txs) now f g = through_map-Finds (tx ∷ txs) now f g

-- Let the map be ranged over in any order, let a hash stand for one transaction within the current
-- block and within the next one, and let their links to previous transactions go down in some rank
-- of hashes, with fuel above the ranks of the scheduled transactions. Then the gathering ends, and
-- a transaction is gathered if and only if its effects are visible in the current block.
pub gather_effective_transactions_lem :
    ⦃lib : Libraries⦄ (order : List ApiTransaction → List ApiTransaction) (fuel self_shard : ℕ)
    (rank : Bytes → ℕ) (previous current next : Block)
    → ((txs : List ApiTransaction) → Permᴰ txs (order txs))
    → HashesIdentify (gather_all_transactions current)
    → HashesIdentify (gather_all_transactions next)
    → HasDescendingLinks rank (gather_all_transactions current)
    → HasDescendingLinks rank (gather_all_transactions next)
    → HasFuel rank fuel (gather_scheduled_transactions previous)
    → HasFuel rank fuel (gather_scheduled_transactions current)
    → (out : List ApiTransaction) × (gather_effective_transactions order fuel self_shard previous
          current next
        ≡ some out)
      × ((s : ApiTransaction)
          → Memᴰ s out
            ↔ IsVisible self_shard
                (gather_all_transactions previous)
                (gather_all_transactions current)
                (gather_all_transactions next)
                (gather_scheduled_transactions previous)
                (gather_scheduled_transactions current)
                s)
unfolding gather_effective_transactions
gather_effective_transactions_lem order fuel self_shard rank previous current next p ci ni cd nd f
      g =
    branches-Finds self_shard (gather_all_transactions previous) (gather_all_transactions current)
      (gather_all_transactions next) order fuel rank p ci ni cd nd
      (gather_scheduled_transactions previous) (gather_scheduled_transactions current) f g
