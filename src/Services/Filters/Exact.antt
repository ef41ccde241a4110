-- ===== src/Services/Filters/Exact.antt =====
-- server/services/transactionFilters.go: which transactions the filters keep.
use mathlib.Core.List.Memᴰ
use rosetta_images.Base.{
  ◌≡◌, refl, ◌∙◌, ◌↔◌, Bool, true, false, not, ◌&&◌, List, Bytes, ◌==◌, bytes_eq, bytes_eq_iff,
  keep, Memᴰ, Memᴰ-keep, Memᴰ-of_keep, Memᴰ-of_any, any-of_Memᴰ,
}
use rosetta_images.Api.{Libraries, ApiTransaction}
use rosetta_images.Services.Relayed.{is_relayed_v1_transaction}
use rosetta_images.Services.Filters.{
  invalid_txs, holds_hash,
  filter_out_intrashard_contract_results_whose_original_transaction_is_in_invalid_miniblock,
  filter_out_intrashard_relayed_transaction_already_held_in_invalid_miniblock,
}

module _ ⦃lib : Libraries⦄ (txs : List ApiTransaction) where
  -- One of the transactions is invalid and has the hash.
  abbrev pub HasInvalid : Bytes → Type 0
  HasInvalid hash =
      (t : ApiTransaction) × Memᴰ t txs × (t.tx_type ≡ lib.tx_type_invalid) × (t.hash ≡ hash)

  HasInvalid-of_holds_hash :
      (hash : Bytes) → holds_hash (invalid_txs txs) hash ≡ true → HasInvalid hash
  unfolding holds_hash invalid_txs
  HasInvalid-of_holds_hash hash h =
      let (_, m, e) = Memᴰ-of_any _ _ h in
      let (t, n, d) = Memᴰ.of_map _ _ m in
      let (mt, ht) = Memᴰ-of_keep _ txs n in
      (t, mt, (bytes_eq_iff _ _).0 ht, d ∙ (bytes_eq_iff _ _).0 e)

  holds_hash-of_HasInvalid :
      (hash : Bytes) → HasInvalid hash → holds_hash (invalid_txs txs) hash ≡ true
  unfolding holds_hash invalid_txs
  holds_hash-of_HasInvalid hash (t, m, kind, e) =
      any-of_Memᴰ (λ h. h == hash) _
        (Memᴰ.map (λ (r : ApiTransaction). r.hash) (Memᴰ-keep _ txs m ((bytes_eq_iff _ _).1 kind)))
        ((bytes_eq_iff _ _).1 e)

  kept_iff :
      (q : ApiTransaction → Bool) (key : ApiTransaction → Bytes) (s : ApiTransaction)
      → Memᴰ s (keep (λ tx. not (q tx && holds_hash (invalid_txs txs) (key tx))) txs)
        ↔ (Memᴰ s txs × ¬ ((q s ≡ true) × HasInvalid (key s)))
  kept_iff q key s = (to, from)
    where
      to :
          Memᴰ s (keep (λ tx. not (q tx && holds_hash (invalid_txs txs) (key tx))) txs)
          → Memᴰ s txs × ¬ ((q s ≡ true) × HasInvalid (key s))
      to m =
          let (ms, h) = Memᴰ-of_keep _ txs m in
          (ms, λ b. clash (q s) _ b.0 (holds_hash-of_HasInvalid (key s) b.1) h)
        where
          clash : (a b : Bool) → a ≡ true → b ≡ true → not (a && b) ≡ true → ⊥
          clash true true ha hb h = cc
          clash false b ha hb h = cc
          clash true false ha hb h = cc

      from :
          Memᴰ s txs × ¬ ((q s ≡ true) × HasInvalid (key s))
          → Memᴰ s (keep (λ tx. not (q tx && holds_hash (invalid_txs txs) (key tx))) txs)
      from (m, k) = Memᴰ-keep _ txs m (
          passes (q s) (holds_hash (invalid_txs txs) (key s))
            (λ a b. k (a, HasInvalid-of_holds_hash (key s) b)))
        where
          passes : (a b : Bool) → (a ≡ true → b ≡ true → ⊥) → not (a && b) ≡ true
          passes true true k = elim (k refl refl) [ ]
          passes true false k = refl
          passes false b k = refl

-- The filter of contract results keeps exactly the transactions that are not the contract result
-- of an invalid transaction among them.
pub filter_out_contract_results_lem :
    ⦃lib : Libraries⦄ (txs : List ApiTransaction) (s : ApiTransaction)
    → Memᴰ s (
        filter_out_intrashard_contract_results_whose_original_transaction_is_in_invalid_miniblock
          txs)
      ↔ (Memᴰ s txs
          × ¬ ((s.tx_type ≡ lib.tx_type_unsigned) × HasInvalid txs s.original_transaction_hash))
unfolding filter_out_intrashard_contract_results_whose_original_transaction_is_in_invalid_miniblock
filter_out_contract_results_lem ⦃lib⦄ txs s =
    let kept =
      kept_iff txs (λ tx. tx.tx_type == lib.tx_type_unsigned) (λ tx. tx.original_transaction_hash)
        s in
    (
      λ m. ((kept.0 m).0, λ b. (kept.0 m).1 ((bytes_eq_iff _ _).1 b.0, b.1)),
      λ k. kept.1 (k.0, λ b. k.1 ((bytes_eq_iff _ _).0 b.0, b.1)),
    )

-- The filter of relayed transactions keeps exactly the transactions that are not a relayed
-- transaction with the hash of an invalid transaction among them.
pub filter_out_relayed_transactions_lem :
    ⦃lib : Libraries⦄ (txs : List ApiTransaction) (s : ApiTransaction)
    → Memᴰ s (filter_out_intrashard_relayed_transaction_already_held_in_invalid_miniblock txs)
      ↔ (Memᴰ s txs × ¬ ((is_relayed_v1_transaction s ≡ true) × HasInvalid txs s.hash))
unfolding filter_out_intrashard_relayed_transaction_already_held_in_invalid_miniblock
filter_out_relayed_transactions_lem txs s = kept_iff txs is_relayed_v1_transaction (λ tx. tx.hash) s
