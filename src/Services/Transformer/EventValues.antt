-- ===== src/Services/Transformer/EventValues.antt =====
-- The values of extracted events are decimal texts, since the source prints them from big integers.
use rosetta_images.Base.{
  ℕ, zero, suc, ◌+◌, ◌*◌, ◌≡◌, subst, Bool, true, false, Option, none, some, List, [], ◌∷◌, Bytes,
  Result, ok, err, ◌>>=◌, >>=-eq-ok, ok-injective, guard-eq-ok, traverse, All, All-append,
  All-traverse, take, drop, get_or, nat_eq, bytes_eq, if◌then◌else◌, Bool-cases, inl, inr,
}
use rosetta_images.Text.Decimal.{IsDecimal, format-IsDecimal}
use rosetta_images.Text.BigEndian.{set_bytes}
use rosetta_images.Failure.{Failure}
use rosetta_images.Api.{Libraries, ApiTransaction, Event}
use rosetta_images.Services.Interface.{NetworkProvider}
use rosetta_images.Services.EventNames
use rosetta_images.Services.Events.{
  EventEsdt, EventTransferValueOnly, EventClaimDeveloperRewards, new_event_esdt_from_basic_topics,
}
use rosetta_images.Services.EventsController.{
  effective_transfer, decide_effective_event_transfer_value_only_after_sirius, collect_effective,
  push_effective, extract_event_transfer_value_only, typed_claim_developer_rewards,
  extract_events_claim_developer_rewards, extract_event_sc_deploy,
}
use rosetta_images.Services.EsdtEvents.{
  typed_local, typed_wipe, typed_transfer, transfers_from, typed_multi_transfer, multi_transfers,
  extract_events_esdt_or_esdt_nft_transfers, extract_events_esdt_local_burn,
  extract_events_esdt_local_mint, extract_events_esdt_wipe, extract_events_esdt_nft_create,
  extract_events_esdt_nft_burn, extract_events_esdt_nft_add_quantity,
}
use rosetta_images.Services.EventOperations.{TypedEvents, extract_typed_events}
use rosetta_images.Services.Transformer.EventLedger.{Decimals, AreDecimal}

abbrev HasDecimal : EventEsdt → Type 0
HasDecimal e = IsDecimal e.value

basic_topics-HasDecimal :
    (topics : List Bytes) (e : EventEsdt)
    → new_event_esdt_from_basic_topics topics ≡ ok e
    → HasDecimal e
unfolding new_event_esdt_from_basic_topics
basic_topics-HasDecimal [] e h = cc
basic_topics-HasDecimal (_ ∷ []) e h = cc
basic_topics-HasDecimal (_ ∷ _ ∷ []) e h = cc
basic_topics-HasDecimal (i ∷ n ∷ v ∷ _) e h =
    subst HasDecimal (ok-injective h) (format-IsDecimal (set_bytes v))

-- A result that is built from basic topics, with the value kept.
of_basic_topics :
    (topics : List Bytes) (f : EventEsdt → EventEsdt) (e : EventEsdt)
    → ((x : EventEsdt) → HasDecimal x → HasDecimal (f x))
    → (new_event_esdt_from_basic_topics topics >>= λ typed. ok (f typed)) ≡ ok e
    → HasDecimal e
of_basic_topics topics f e k h =
    let (typed, ht, last) = >>=-eq-ok (new_event_esdt_from_basic_topics topics) _ h in
    subst HasDecimal (ok-injective last) (k typed (basic_topics-HasDecimal topics typed ht))

typed_local-HasDecimal :
    (n : ℕ) (event : Event) (e : EventEsdt) → typed_local n event ≡ ok e → HasDecimal e
unfolding typed_local
typed_local-HasDecimal n event e h =
    of_basic_topics event.topics _ e (λ x d. d) (guard-eq-ok _ _ _ h).1

local-Decimals :
    (n : ℕ) (events : List Event) {es : List EventEsdt}
    → traverse (typed_local n) events ≡ ok es
    → Decimals es
local-Decimals n events h =
    All-traverse HasDecimal (typed_local n) events h (typed_local-HasDecimal n)

module _ (provider : NetworkProvider) where
  typed_wipe-HasDecimal :
      (event : Event) (e : EventEsdt) → typed_wipe provider event ≡ ok e → HasDecimal e
  unfolding typed_wipe
  typed_wipe-HasDecimal event e h =
      of_basic_topics event.topics _ e (λ x d. d) (guard-eq-ok _ _ _ h).1

  typed_transfer-HasDecimal :
      (event : Event) (e : EventEsdt) → typed_transfer provider event ≡ ok e → HasDecimal e
  unfolding typed_transfer
  typed_transfer-HasDecimal event e h =
      of_basic_topics event.topics _ e (λ x d. d) (guard-eq-ok _ _ _ h).1

  transfers_from-Decimals :
      (rounds i : ℕ) (receiver : Bytes) (event : Event) (es : List EventEsdt)
      → transfers_from provider rounds i receiver event ≡ ok es
      → Decimals es
  unfolding transfers_from
  transfers_from-Decimals zero i receiver event es h = subst Decimals (ok-injective h) tt
  transfers_from-Decimals (suc rounds) i receiver event es h =
      let topics = take 3 (drop (i * EventNames.num_topics_per_transfer) event.topics) in
      let (typed, ht, h1) = >>=-eq-ok (new_event_esdt_from_basic_topics topics) _ h in
      let (rest, hr, last) =
        >>=-eq-ok (transfers_from provider rounds (i + 1) receiver event) _ h1 in
      subst Decimals (ok-injective last) (
        basic_topics-HasDecimal topics typed ht,
        transfers_from-Decimals rounds (i + 1) receiver event rest hr,
      )

  multi_transfer-Decimals :
      (event : Event) (es : List EventEsdt)
      → typed_multi_transfer provider event ≡ ok es
      → Decimals es
  unfolding typed_multi_transfer
  multi_transfer-Decimals event es h =
      transfers_from-Decimals _ 0 _ event es (guard-eq-ok _ _ _ h).1

  multi_transfers-Decimals :
      (events : List Event) (es : List EventEsdt)
      → multi_transfers provider events ≡ ok es
      → Decimals es
  unfolding multi_transfers
  multi_transfers-Decimals [] es h = subst Decimals (ok-injective h) tt
  multi_transfers-Decimals (event ∷ events) es h =
      let (typed, ht, h1) = >>=-eq-ok (typed_multi_transfer provider event) _ h in
      let (rest, hr, last) = >>=-eq-ok (multi_transfers provider events) _ h1 in
      subst Decimals (ok-injective last) (
        All-append HasDecimal typed rest (multi_transfer-Decimals event typed ht)
          (multi_transfers-Decimals events rest hr))

  esdt_transfers-Decimals :
      (tx : ApiTransaction) (es : List EventEsdt)
      → extract_events_esdt_or_esdt_nft_transfers provider tx ≡ ok es
      → Decimals es
  unfolding extract_events_esdt_or_esdt_nft_transfers
  esdt_transfers-Decimals tx es h =
      let (single, hs, h1) = >>=-eq-ok (traverse (typed_transfer provider) _) _ h in
      let (multi, hm, last) = >>=-eq-ok (multi_transfers provider _) _ h1 in
      subst Decimals (ok-injective last) (
        All-append HasDecimal single multi
          (All-traverse HasDecimal (typed_transfer provider) _ hs typed_transfer-HasDecimal)
          (multi_transfers-Decimals _ multi hm))

  abbrev ValueDecimal : EventTransferValueOnly → Type 0
  ValueDecimal e = IsDecimal e.value

  abbrev MaybeDecimal : Option EventTransferValueOnly → Type 0
  MaybeDecimal none = Unit
  MaybeDecimal (some e) = IsDecimal e.value

  pick_MaybeDecimal :
      (b : Bool) (e : EventTransferValueOnly) (o : Option EventTransferValueOnly)
      → IsDecimal e.value
      → Path
          (Result Failure (Option EventTransferValueOnly))
          (if b then ok (some e) else ok none)
          (ok o)
      → MaybeDecimal o
  pick_MaybeDecimal true e o d h = subst MaybeDecimal (ok-injective h) d
  pick_MaybeDecimal false e o d h = subst MaybeDecimal (ok-injective h) tt

  effective_transfer-MaybeDecimal :
      (event : Event) (receiver : Bytes) (sender : Result Failure Bytes)
      (o : Option EventTransferValueOnly)
      → effective_transfer provider event receiver sender ≡ ok o
      → MaybeDecimal o
  unfolding effective_transfer
  effective_transfer-MaybeDecimal event receiver (err e) o h = cc
  effective_transfer-MaybeDecimal event receiver (ok sender) o h =
      pick_MaybeDecimal _ _ o (format-IsDecimal (set_bytes (get_or event.topics 0 []))) h

  skip_MaybeDecimal :
      (b : Bool) (m : Result Failure (Option EventTransferValueOnly))
      (o : Option EventTransferValueOnly)
      → (m ≡ ok o → MaybeDecimal o)
      → (if b then ok none else m) ≡ ok o
      → MaybeDecimal o
  skip_MaybeDecimal true m o k h = subst MaybeDecimal (ok-injective h) tt
  skip_MaybeDecimal false m o k h = k h

  decide-MaybeDecimal :
      (event : Event) (o : Option EventTransferValueOnly)
      → decide_effective_event_transfer_value_only_after_sirius provider event ≡ ok o
      → MaybeDecimal o
  unfolding decide_effective_event_transfer_value_only_after_sirius
  decide-MaybeDecimal event o h =
      skip_MaybeDecimal _ _ o
        (skip_MaybeDecimal _ _ o (
          effective_transfer-MaybeDecimal event (get_or event.topics 1 [])
            (provider.convert_address_to_pub_key event.address) o))
        (guard-eq-ok _ _ _ h).1

  push_effective-All :
      (o : Option EventTransferValueOnly) (rest : List EventTransferValueOnly)
      → MaybeDecimal o
      → All ValueDecimal rest
      → All ValueDecimal (push_effective o rest)
  push_effective-All none rest d k = k
  push_effective-All (some e) rest d k = (d, k)

  collect_effective-All :
      (events : List Event) (es : List EventTransferValueOnly)
      → collect_effective provider events ≡ ok es
      → All ValueDecimal es
  unfolding collect_effective
  collect_effective-All [] es h = subst (All ValueDecimal) (ok-injective h) tt
  collect_effective-All (event ∷ events) es h =
      let (o, ho, h1) =
        >>=-eq-ok (decide_effective_event_transfer_value_only_after_sirius provider event) _ h in
      let (rest, hr, last) = >>=-eq-ok (collect_effective provider events) _ h1 in
      subst (All ValueDecimal) (ok-injective last) (
        push_effective-All o rest (decide-MaybeDecimal event o ho)
          (collect_effective-All events rest hr))

  value_only-All :
      (tx : ApiTransaction) (es : List EventTransferValueOnly)
      → extract_event_transfer_value_only provider tx ≡ ok es
      → All ValueDecimal es
  unfolding extract_event_transfer_value_only
  value_only-All tx es h = elim (Bool-cases (provider.is_release_sirius_active tx.epoch)) [
    | inl active ↦ collect_effective-All _ es (rw active at h)
    | inr inactive ↦ subst (All ValueDecimal) (ok-injective (rw inactive at h)) tt
  ]

  abbrev ClaimDecimal : EventClaimDeveloperRewards → Type 0
  ClaimDecimal e = IsDecimal e.value

  claim-Decimal :
      (event : Event) (e : EventClaimDeveloperRewards)
      → typed_claim_developer_rewards provider event ≡ ok e
      → ClaimDecimal e
  unfolding typed_claim_developer_rewards
  claim-Decimal event e h =
      subst ClaimDecimal (ok-injective (guard-eq-ok _ _ _ h).1)
        (format-IsDecimal (set_bytes (get_or event.topics 0 [])))

-- Every amount that is extracted from events is a decimal text.
pub extract_typed_events-AreDecimal :
    ⦃lib : Libraries⦄ (provider : NetworkProvider) (tx : ApiTransaction) (events : TypedEvents)
    → extract_typed_events provider tx ≡ ok events
    → AreDecimal events
unfolding extract_typed_events extract_events_esdt_local_burn extract_events_esdt_local_mint
    extract_events_esdt_wipe extract_events_esdt_nft_create extract_events_esdt_nft_burn
    extract_events_esdt_nft_add_quantity extract_events_claim_developer_rewards
extract_typed_events-AreDecimal provider tx events h =
    let (deploys, _, h0) = >>=-eq-ok (extract_event_sc_deploy provider tx) _ h in
    let (value_only, e1, h1) = >>=-eq-ok (extract_event_transfer_value_only provider tx) _ h0 in
    let (transfers, e2, h2) =
      >>=-eq-ok (extract_events_esdt_or_esdt_nft_transfers provider tx) _ h1 in
    let (burns, e3, h3) = >>=-eq-ok (extract_events_esdt_local_burn tx) _ h2 in
    let (mints, e4, h4) = >>=-eq-ok (extract_events_esdt_local_mint tx) _ h3 in
    let (wipes, e5, h5) = >>=-eq-ok (extract_events_esdt_wipe provider tx) _ h4 in
    let (creates, e6, h6) = >>=-eq-ok (extract_events_esdt_nft_create tx) _ h5 in
    let (nft_burns, e7, h7) = >>=-eq-ok (extract_events_esdt_nft_burn tx) _ h6 in
    let (additions, e8, h8) = >>=-eq-ok (extract_events_esdt_nft_add_quantity tx) _ h7 in
    let (claims, e9, last) = >>=-eq-ok (extract_events_claim_developer_rewards provider tx) _ h8 in
    subst AreDecimal (ok-injective last) (record {
      transfer_value_only = value_only-All provider tx value_only e1;
      esdt_transfer = esdt_transfers-Decimals provider tx transfers e2;
      local_burn = local-Decimals _ _ e3;
      local_mint = local-Decimals _ _ e4;
      wipe = All-traverse HasDecimal (typed_wipe provider) _ e5 (typed_wipe-HasDecimal provider);
      nft_create = local-Decimals _ _ e6;
      nft_burn = local-Decimals _ _ e7;
      nft_add_quantity = local-Decimals _ _ e8;
      claim_developer_rewards =
          All-traverse (ClaimDecimal provider) (typed_claim_developer_rewards provider) _ e9
            (claim-Decimal provider);
    })
