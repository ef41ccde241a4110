-- ===== src/Provider/Blocks/Final.antt =====
-- What a block that the provider answers is made of.
use rosetta_images.Base.{
  ℕ, ◌+◌, ◌-◌, ◌^◌, ◌≤◌, ◌<◌, ◌≡◌, sym, ◌∙◌, ap, none, some, arith, List, ok, Option, guard-eq-ok,
  >>=-eq-ok, ok-injective, ltb, leb,
}
use rosetta_images.Failure.{cannot_get_block, cannot_get_latest_block_nonce, is_offline}
use rosetta_images.Api.{ApiTransaction, Block, Libraries}
use rosetta_images.Provider.Observer.{
  NetworkProvider, NodeStatus, ObserverFacade, ProviderLibraries,
}
use rosetta_images.Provider.NodeStatus.{get_latest_nonce_given_highest_final_nonce}
use rosetta_images.Provider.Cache.{BlocksCache}
use rosetta_images.Provider.Blocks.{
  fetch_block_by_nonce, get_block_by_nonce, get_latest_block_nonce, get_plain_node_status,
  nonce_after, nonce_before, or_out_of_fuel,
}
use rosetta_images.Provider.Scheduled.{do_simplify_block_with_scheduled_transactions}
use rosetta_images.Provider.Blocks.Uncached.{block_by_nonce, simplified_block}
use rosetta_images.Provider.Blocks.Refinement.{IsHonest, get_block_by_nonce-Refines}

some-of_or_out_of_fuel : (o : Option Block) {b : Block} → or_out_of_fuel o ≡ ok b → o ≡ some b
some-of_or_out_of_fuel none h = cc
some-of_or_out_of_fuel (some a) h = ap some (ok-injective h)

latest_bound :
    (highest latest : ℕ)
    → get_latest_nonce_given_highest_final_nonce highest ≡ ok latest
    → latest + 2 ≡ highest
unfolding get_latest_nonce_given_highest_final_nonce
latest_bound highest latest h =
    let (big, e) = guard-eq-ok (leb highest 2) cannot_get_latest_block_nonce (ok (highest - 2)) h in
    let above : 3 ≤ highest = ground arith in omega (arith, above, ok-injective e)

module _ ⦃lib : Libraries⦄ ⦃libs : ProviderLibraries⦄
    (order : List ApiTransaction → List ApiTransaction) (fuel : ℕ) (provider : NetworkProvider)
    (observer : ObserverFacade) where
  -- What `block` is made of, for a nonce.
  abbrev pub IsMadeOfFinalBlocks : ℕ → Block → Type 0
  IsMadeOfFinalBlocks nonce block =
      (status : NodeStatus) × (get_plain_node_status provider observer ≡ ok status)
      × (nonce + 2 ≤ status.highest_final_nonce)
      × ((original : Block) × (previous : Block) × (following : Block) × (fetch_block_by_nonce
              provider observer nonce
            ≡ ok original)
          × (fetch_block_by_nonce provider observer (nonce_before original.nonce) ≡ ok previous)
          × (fetch_block_by_nonce provider observer (nonce_after original.nonce) ≡ ok following)
          × (do_simplify_block_with_scheduled_transactions order fuel previous original following
              ≡ some block))

  uncached-IsMadeOfFinalBlocks :
      (nonce : ℕ) (block : Block)
      → block_by_nonce order fuel provider observer nonce ≡ ok block
      → IsMadeOfFinalBlocks nonce block
  unfolding block_by_nonce simplified_block get_latest_block_nonce
  uncached-IsMadeOfFinalBlocks nonce block h =
      let (_, online) = guard-eq-ok provider.is_offline is_offline _ h in
      let (latest, e_latest, checked) =
        >>=-eq-ok (get_latest_block_nonce provider observer) _ online in
      let (status, e_status, e_nonce) =
        >>=-eq-ok (get_plain_node_status provider observer) _ e_latest in
      let (not_above, rest) = guard-eq-ok (ltb latest nonce) cannot_get_block _ checked in
      let (original, e_original, simplify) =
        >>=-eq-ok (fetch_block_by_nonce provider observer nonce) _ rest in
      let (previous, e_previous, then) =
        >>=-eq-ok (fetch_block_by_nonce provider observer (nonce_before original.nonce)) _
          simplify in
      let (following, e_following, last) =
        >>=-eq-ok (fetch_block_by_nonce provider observer (nonce_after original.nonce)) _ then in
      let below : nonce ≤ latest = ground arith in
      (
        status,
        e_status,
        omega (arith, below, latest_bound status.highest_final_nonce latest e_nonce),
        (
          original,
          previous,
          following,
          e_original,
          e_previous,
          e_following,
          some-of_or_out_of_fuel _ last,
        ),
      )

  -- Whatever honest cache it has, a block that the provider answers for a uint64 nonce is at least
  -- two below the highest final nonce that the node reports, and it is the simplification of the
  -- block that the observer answers for the nonce with that block's two neighbours.
  pub get_block_by_nonce-IsMadeOfFinalBlocks :
      (C : Type 0) ⦃cache : BlocksCache C⦄ (c : C) (nonce : ℕ) (block : Block)
      → IsHonest provider observer c
      → nonce < 2 ^ 64
      → (get_block_by_nonce order fuel provider observer nonce c).0 ≡ ok block
      → IsMadeOfFinalBlocks nonce block
  get_block_by_nonce-IsMadeOfFinalBlocks C c nonce block honest small h =
      uncached-IsMadeOfFinalBlocks nonce block
        (sym (get_block_by_nonce-Refines order fuel provider observer nonce small c honest).0 ∙ h)
