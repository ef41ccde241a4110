-- ===== src/Provider/Blocks/Returns.antt =====
-- When the provider answers a block: the run of the simplification ends.
use rosetta_images.Base.{
  ℕ, ◌+◌, ◌-◌, ◌^◌, ◌≤◌, ◌<◌, ◌≡◌, refl, sym, subst, ◌∙◌, some, arith, List, [], ◌∷◌, Bytes, ok,
  Option, ltb, true, false, Bool, if◌then◌else◌,
}
use rosetta_images.Api.{ApiTransaction, Block, Libraries}
use rosetta_images.Provider.Observer.{
  NetworkProvider, NodeStatus, ObserverFacade, ProviderLibraries,
}
use rosetta_images.Provider.NodeStatus.{get_latest_nonce_given_highest_final_nonce}
use rosetta_images.Provider.Cache.{BlocksCache}
use rosetta_images.Provider.Blocks.{
  fetch_block_by_nonce, get_block_by_nonce, get_latest_block_nonce, get_plain_node_status,
  nonce_after, nonce_before, or_out_of_fuel,
}
use rosetta_images.Provider.Scheduled.{
  do_simplify_block_with_scheduled_transactions, find_immediately_executing_contract_results,
  gather_all_transactions, gather_effective_transactions, gather_scheduled_transactions,
  if_scheduled, simplified, ◌>>=?◌,
}
use rosetta_images.Provider.Scheduled.Descendants.{
  HasDescendingLinks, HasFuel, find_immediately_executing_contract_results_lem,
}
use rosetta_images.Provider.Blocks.Uncached.{block_by_nonce, simplified_block}
use rosetta_images.Provider.Blocks.Refinement.{IsHonest, get_block_by_nonce-Refines}

abbrev HasSome : {A : Type 0} → Option A → Type 0
HasSome {A} o = (a : A) × (o ≡ some a)

if_scheduled-HasSome :
    (scheduled : List ApiTransaction) (results : Option (List ApiTransaction))
    → HasSome results
    → HasSome (if_scheduled scheduled results)
if_scheduled-HasSome [] results h = ([], refl)
if_scheduled-HasSome (tx ∷ txs) results h = h

trivial_or_both-HasSome :
    (trivial : Bool) (txs : List ApiTransaction) (before now : Option (List ApiTransaction))
    (k : List ApiTransaction → List ApiTransaction → List ApiTransaction)
    → HasSome before
    → HasSome now
    → HasSome (if trivial then some txs else before >>=? λ a. now >>=? λ b. some (k a b))
trivial_or_both-HasSome true txs before now k h h' = (txs, refl)
trivial_or_both-HasSome false txs before now k (a, e) (b, e') = (k a b, rw (e, e') refl)

found :
    (self_shard fuel : ℕ) (rank : Bytes → ℕ) (txs items : List ApiTransaction)
    → HasDescendingLinks rank items
    → HasFuel rank fuel txs
    → HasSome (find_immediately_executing_contract_results fuel self_shard txs items)
found self_shard fuel rank txs items d f =
    let (out, e, _) =
      find_immediately_executing_contract_results_lem self_shard items rank fuel txs d f in
    (out, e)

gather-HasSome :
    ⦃lib : Libraries⦄ (order : List ApiTransaction → List ApiTransaction) (fuel self_shard : ℕ)
    (rank : Bytes → ℕ) (previous current following : Block)
    → HasDescendingLinks rank (gather_all_transactions current)
    → HasDescendingLinks rank (gather_all_transactions following)
    → HasFuel rank fuel (gather_scheduled_transactions previous)
    → HasFuel rank fuel (gather_scheduled_transactions current)
    → HasSome (gather_effective_transactions order fuel self_shard previous current following)
unfolding gather_effective_transactions
gather-HasSome order fuel self_shard rank previous current following dc df fp fc =
    trivial_or_both-HasSome _ _ _ _ _
      (if_scheduled-HasSome (gather_scheduled_transactions previous) _ (
        found self_shard fuel rank (gather_scheduled_transactions previous)
          (gather_all_transactions current) dc fp))
      (if_scheduled-HasSome (gather_scheduled_transactions current) _ (
        found self_shard fuel rank (gather_scheduled_transactions current)
          (gather_all_transactions following) df fc))

-- The simplification of a block that was gathered.
simplified-ok :
    (block : Block) (txs : Option (List ApiTransaction))
    → HasSome txs
    → (answer : Block) × (or_out_of_fuel (simplified block txs) ≡ ok answer)
simplified-ok block txs (out, e) =
    subst (λ t. (answer : Block) × (or_out_of_fuel (simplified block t) ≡ ok answer)) (sym e)
      (_, refl)

latest_of :
    (highest : ℕ)
    → 2 < highest
    → get_latest_nonce_given_highest_final_nonce highest ≡ ok (highest - 2)
unfolding get_latest_nonce_given_highest_final_nonce
latest_of highest h = ground arith

not_above : (nonce highest : ℕ) → nonce + 2 ≤ highest → ltb (highest - 2) nonce ≡ false
not_above nonce highest h = ground arith

module _ ⦃lib : Libraries⦄ ⦃libs : ProviderLibraries⦄
    (order : List ApiTransaction → List ApiTransaction) (fuel : ℕ) (provider : NetworkProvider)
    (observer : ObserverFacade) (rank : Bytes → ℕ) where
  -- Let the node have more than two final blocks, let the block be at least two below the highest
  -- final one, let the observer answer it and its two neighbours, and let the links between
  -- transactions go down in some rank of hashes, with fuel above the ranks of the scheduled
  -- transactions. Then the provider, with any honest cache, answers a block for the uint64 nonce.
  pub get_block_by_nonce-returns :
      (C : Type 0) ⦃cache : BlocksCache C⦄ (c : C) (nonce : ℕ) (status : NodeStatus)
      (previous original following : Block)
      → IsHonest provider observer c
      → nonce < 2 ^ 64
      → provider.is_offline ≡ false
      → get_plain_node_status provider observer ≡ ok status
      → 2 < status.highest_final_nonce
      → nonce + 2 ≤ status.highest_final_nonce
      → fetch_block_by_nonce provider observer nonce ≡ ok original
      → fetch_block_by_nonce provider observer (nonce_before original.nonce) ≡ ok previous
      → fetch_block_by_nonce provider observer (nonce_after original.nonce) ≡ ok following
      → HasDescendingLinks rank (gather_all_transactions original)
      → HasDescendingLinks rank (gather_all_transactions following)
      → HasFuel rank fuel (gather_scheduled_transactions previous)
      → HasFuel rank fuel (gather_scheduled_transactions original)
      → (block : Block) × ((get_block_by_nonce order fuel provider observer nonce c).0 ≡ ok block)
  unfolding block_by_nonce simplified_block get_latest_block_nonce
      do_simplify_block_with_scheduled_transactions
  get_block_by_nonce-returns C c nonce status previous original following honest small online
        e_status some_final final e_original e_previous e_following d_original d_following fp fo =
      let (refined, _) =
        get_block_by_nonce-Refines order fuel provider observer nonce small c honest in
      let (answer, e) = simplified-ok original _ (
        gather-HasSome order fuel original.shard rank previous original following d_original
          d_following fp fo) in
      (
        answer,
        refined
            ∙ rw
                (
                  e_status,
                  latest_of status.highest_final_nonce some_final,
                  not_above nonce status.highest_final_nonce final,
                  e_original,
                  e_previous,
                  e_following,
                  online,
                )
                e,
      )
