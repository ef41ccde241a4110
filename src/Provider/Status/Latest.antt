-- ===== src/Provider/Status/Latest.antt =====
-- The latest block of the node status, and the blocks that are answered.
use rosetta_images.Base.{
  ℕ, ◌≡◌, refl, ◌∙◌, ap, List, Result, ok, err, ltb, if◌then◌else◌, >>=-eq-ok, ok-injective, Bool,
  true, false,
}
use rosetta_images.Failure.{cannot_get_block, is_offline, Failure}
use rosetta_images.Api.{ApiTransaction, Block, Libraries}
use rosetta_images.Resources.{AggregatedNodeStatus}
use rosetta_images.Provider.Observer.{
  NetworkProvider, NodeStatus, ObserverFacade, ProviderLibraries,
}
use rosetta_images.Provider.Cache.{Action, BlocksCache, fails_if, returns, ◌>>=◌}
use rosetta_images.Provider.NodeStatus.{get_latest_nonce_given_highest_final_nonce}
use rosetta_images.Provider.Blocks.{
  do_get_block_by_nonce, get_block_by_nonce, get_latest_block_nonce, get_plain_node_status,
  simplify_block_with_scheduled_transactions,
}
use rosetta_images.Provider.Status.{
  get_block_summary_by_nonce, get_epoch_start_info, get_node_status, get_oldest_eligible_epoch,
  get_oldest_nonce_with_historical_state_given_node_status,
}

-- Two guards, passed or not.
module _ {C : Type 0} (k : Action C Block) (c : C) where
  guarded_once :
      (b : Bool) (e : Failure) → (fails_if b e >>= (λ _. k)) c ≡ (if b then (err e, c) else k c)
  guarded_once true e = refl
  guarded_once false e = refl

  guarded_twice :
      (off : Bool) (r : Result Failure ℕ) (latest : ℕ) (check : ℕ → Bool)
      → off ≡ false
      → r ≡ ok latest
      → (fails_if off is_offline
            >>= (λ _. returns r >>= (λ n. fails_if (check n) cannot_get_block >>= (λ _. k))))
          c
        ≡ (if check latest then (err cannot_get_block, c) else k c)
  guarded_twice off r latest check e e' = rw (e, e') (guarded_once (check latest) cannot_get_block)

module _ ⦃lib : Libraries⦄ ⦃libs : ProviderLibraries⦄
    (order : List ApiTransaction → List ApiTransaction) (fuel : ℕ) (provider : NetworkProvider)
    (observer : ObserverFacade) where
  guarded :
      (C : Type 0) ⦃cache : BlocksCache C⦄ (c : C) (nonce latest : ℕ)
      → provider.is_offline ≡ false
      → get_latest_block_nonce provider observer ≡ ok latest
      → get_block_by_nonce order fuel provider observer nonce c ≡ (
          if ltb latest nonce
          then (err cannot_get_block, c)
          else (do_get_block_by_nonce provider observer nonce
                >>= simplify_block_with_scheduled_transactions order fuel provider observer)
              c)
  unfolding get_block_by_nonce
  guarded C c nonce latest online e =
      guarded_twice
        (do_get_block_by_nonce provider observer nonce
          >>= simplify_block_with_scheduled_transactions order fuel provider observer)
        c provider.is_offline (get_latest_block_nonce provider observer) latest (λ n. ltb n nonce)
        online e

  latest-of_status :
      (status : NodeStatus) (latest : ℕ)
      → get_plain_node_status provider observer ≡ ok status
      → get_latest_nonce_given_highest_final_nonce status.highest_final_nonce ≡ ok latest
      → get_latest_block_nonce provider observer ≡ ok latest
  unfolding get_latest_block_nonce
  latest-of_status status latest e e' = rw e e'

  -- What an answered node status stands for, with a request for a block by a nonce.
  abbrev pub AgreesWithBlocks :
      (C : Type 0) ⦃cache : BlocksCache C⦄ → C → ℕ → AggregatedNodeStatus → Type 0
  AgreesWithBlocks C ⦃cache⦄ c nonce answer =
      (status : NodeStatus) × (latest : ℕ) × (oldest : ℕ) × (get_plain_node_status provider observer
        ≡ ok status)
      × (get_block_summary_by_nonce provider observer latest ≡ ok answer.latest_block)
      × (get_epoch_start_info provider observer
            (get_oldest_eligible_epoch provider observer status.current_epoch)
          ≡ ok oldest)
      × (get_block_summary_by_nonce provider observer oldest
          ≡ ok answer.oldest_block_with_historical_state)
      × (get_block_by_nonce order fuel provider observer nonce c ≡ (
          if ltb latest nonce
          then (err cannot_get_block, c)
          else (do_get_block_by_nonce provider observer nonce
                >>= simplify_block_with_scheduled_transactions order fuel provider observer)
              c))

  -- Where the node status is answered in online mode: its latest block is the observer's summary of a
  -- nonce, and its oldest block the summary of the nonce that the oldest eligible epoch starts with;
  -- and a request for a block by a nonce above that latest nonce is refused, with the cache as it
  -- was, while the block of any other nonce is got and simplified.
  pub get_node_status_lem :
      (C : Type 0) ⦃cache : BlocksCache C⦄ (c : C) (nonce : ℕ) (answer : AggregatedNodeStatus)
      → provider.is_offline ≡ false
      → get_node_status provider observer ≡ ok answer
      → AgreesWithBlocks C c nonce answer
  unfolding get_node_status get_oldest_nonce_with_historical_state_given_node_status
  get_node_status_lem C c nonce answer online h =
      let (status, e_status, r1) = >>=-eq-ok (get_plain_node_status provider observer) _ h in
      let (latest, e_latest, r2) =
        >>=-eq-ok (get_latest_nonce_given_highest_final_nonce status.highest_final_nonce) _ r1 in
      let (summary, e_summary, r3) =
        >>=-eq-ok (get_block_summary_by_nonce provider observer latest) _ r2 in
      let (oldest, e_oldest, r4) =
        >>=-eq-ok
          (get_oldest_nonce_with_historical_state_given_node_status provider observer status) _
          r3 in
      let (old_block, e_old, last) =
        >>=-eq-ok (get_block_summary_by_nonce provider observer oldest) _ r4 in
      let shown = ok-injective last in
      (
        status,
        latest,
        oldest,
        e_status,
        e_summary ∙ ap (λ (a : AggregatedNodeStatus). ok a.latest_block) shown,
        e_oldest,
        e_old ∙ ap (λ (a : AggregatedNodeStatus). ok a.oldest_block_with_historical_state) shown,
        guarded C c nonce latest online (latest-of_status status latest e_status e_latest),
      )
