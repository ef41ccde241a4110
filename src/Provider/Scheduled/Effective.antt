-- ===== src/Provider/Scheduled/Effective.antt =====
-- server/provider/scheduledMiniblocks.go: which transactions `gatherEffectiveTransactions` gathers.
use rosetta_images.Base.{
  ◌≡◌, ◌≢◌, refl, subst, ◌⊎◌, inl, inr, ◌↔◌, Bool, true, false, Option, none, some, List, [], Bytes,
  Dict, ◌==◌, bytes_eq, bytes_eq_iff, if◌then◌else◌, Memᴰ, lookup, Bool-cases, Option-cases,
  any-of_Memᴰ, Memᴰ-of_any,
}
use rosetta_images.Api.{ApiTransaction}
use rosetta_images.Provider.Scheduled.{insert_all, delete_all, values, effective_txs_by_hash}
use rosetta_images.Provider.Scheduled.ByHash.{
  holds, last_with, or_else, lookup-insert_all, lookup-delete_all, ByHash, insert_all-ByHash,
  delete_all-ByHash, lookup-of_values, values-of_lookup, Memᴰ-of_last_with, hash-of_last_with-none,
}

-- A hash stands for one transaction only.
abbrev pub HashesIdentify : List ApiTransaction → Type 0
HashesIdentify txs = (s t : ApiTransaction) → Memᴰ s txs → Memᴰ t txs → s.hash ≡ t.hash → s ≡ t

-- No transaction of the list has the hash.
abbrev pub LacksHash : Bytes → List ApiTransaction → Type 0
LacksHash hash txs = (t : ApiTransaction) → Memᴰ t txs → t.hash ≢ hash

last_with-of_Memᴰ :
    (txs : List ApiTransaction) (s : ApiTransaction)
    → HashesIdentify txs
    → Memᴰ s txs
    → last_with s.hash txs ≡ some s
last_with-of_Memᴰ txs s unique m = by_cases (Option-cases (last_with s.hash txs))
  where
    by_cases :
        (last_with s.hash txs ≡ none) ⊎ ((t : ApiTransaction) × (last_with s.hash txs ≡ some t))
        → last_with s.hash txs ≡ some s
    by_cases (inl e) = elim (hash-of_last_with-none s.hash txs e m refl) [ ]
    by_cases (inr (t, e)) =
        let (mt, ht) = Memᴰ-of_last_with s.hash txs e in
        subst (λ r. last_with s.hash txs ≡ some r) (unique t s mt m ht) e

last_with-of_LacksHash :
    (txs : List ApiTransaction) (hash : Bytes) → LacksHash hash txs → last_with hash txs ≡ none
last_with-of_LacksHash txs hash absent = by_cases (Option-cases (last_with hash txs))
  where
    by_cases :
        (last_with hash txs ≡ none) ⊎ ((t : ApiTransaction) × (last_with hash txs ≡ some t))
        → last_with hash txs ≡ none
    by_cases (inl e) = e
    by_cases (inr (t, e)) = let (mt, ht) = Memᴰ-of_last_with hash txs e in elim (absent t mt ht) [ ]

holds-of_LacksHash :
    (txs : List ApiTransaction) (hash : Bytes) → LacksHash hash txs → holds hash txs ≡ false
holds-of_LacksHash txs hash absent = by_cases (Bool-cases (holds hash txs))
  where
    by_cases : (holds hash txs ≡ true) ⊎ (holds hash txs ≡ false) → holds hash txs ≡ false
    by_cases (inl e) =
        let (t, mt, ht) = Memᴰ-of_any _ txs e in
        elim (absent t mt ((bytes_eq_iff t.hash hash).0 ht)) [ ]
    by_cases (inr e) = e

LacksHash-of_holds :
    (txs : List ApiTransaction) (hash : Bytes) → holds hash txs ≡ false → LacksHash hash txs
LacksHash-of_holds txs hash e t mt ht =
    absurd (
      any-of_Memᴰ (λ (r : ApiTransaction). r.hash == hash) txs mt ((bytes_eq_iff t.hash hash).1 ht))
  where
    absurd : holds hash txs ≡ true → ⊥
    absurd d = cc

-- What terms (a) to (d) of the source say of a transaction: its effects belong to the block if it
-- is executed by now, or if it is in the block, and neither in the previous block, nor executed
-- by then, nor executed by now under the same hash.
abbrev pub IsEffective :
    (in_current in_previous previously_executed currently_executed : List ApiTransaction)
    → ApiTransaction
    → Type 0
IsEffective in_current in_previous previously_executed currently_executed s =
    Memᴰ s currently_executed
    ⊎ (Memᴰ s in_current
        × LacksHash s.hash in_previous
        × LacksHash s.hash previously_executed
        × LacksHash s.hash currently_executed)

terms_of_some :
    (o p : Option ApiTransaction) (b c : Bool) {s : ApiTransaction}
    → or_else o (if b then none else (if c then none else or_else p none)) ≡ some s
    → (o ≡ some s) ⊎ ((o ≡ none) × (b ≡ false) × (c ≡ false) × (p ≡ some s))
terms_of_some (some a) p b c h = inl h
terms_of_some none p true c h = cc
terms_of_some none p false true h = cc
terms_of_some none none false false h = cc
terms_of_some none (some a) false false h = inr (refl, refl, refl, h)

module _ (in_current in_previous previously_executed currently_executed : List ApiTransaction)
    (unique_current : HashesIdentify in_current)
    (unique_executed : HashesIdentify currently_executed) where
  abbrev by_hash : Dict ApiTransaction
  by_hash = effective_txs_by_hash in_current in_previous previously_executed currently_executed

  lookup-by_hash :
      (hash : Bytes)
      → lookup hash by_hash
        ≡ or_else (last_with hash currently_executed) (
            if holds hash previously_executed
            then none
            else (if holds hash in_previous
                then none
                else or_else (last_with hash in_current) none))
  unfolding effective_txs_by_hash lookup
  lookup-by_hash hash =
      rw
        (lookup-insert_all hash currently_executed
          (delete_all previously_executed (delete_all in_previous (insert_all in_current []))))
        (rw
          (lookup-delete_all hash previously_executed
            (delete_all in_previous (insert_all in_current [])))
          (rw (lookup-delete_all hash in_previous (insert_all in_current []))
            (rw (lookup-insert_all hash in_current []) refl)))

  by_hash-ByHash : ByHash by_hash
  unfolding effective_txs_by_hash
  by_hash-ByHash = insert_all-ByHash currently_executed _ (
      delete_all-ByHash previously_executed _
        (delete_all-ByHash in_previous _ (insert_all-ByHash in_current [] tt)))

  IsEffective-of_lookup :
      (s : ApiTransaction)
      → lookup s.hash by_hash ≡ some s
      → IsEffective in_current in_previous previously_executed currently_executed s
  IsEffective-of_lookup s h =
      of_terms (terms_of_some _ (last_with s.hash in_current) _ _ (rw (lookup-by_hash s.hash) at h))
    where
      of_terms :
          (last_with s.hash currently_executed ≡ some s)
            ⊎ ((last_with s.hash currently_executed ≡ none)
                × (holds s.hash previously_executed ≡ false)
                × (holds s.hash in_previous ≡ false)
                × (last_with s.hash in_current ≡ some s))
          → IsEffective in_current in_previous previously_executed currently_executed s
      of_terms (inl e) = inl (Memᴰ-of_last_with s.hash currently_executed e).0
      of_terms (inr (now, executed, previous, e)) = inr (
        (Memᴰ-of_last_with s.hash in_current e).0,
        LacksHash-of_holds in_previous s.hash previous,
        LacksHash-of_holds previously_executed s.hash executed,
        λ t m. hash-of_last_with-none s.hash currently_executed now m,
      )

  lookup-of_IsEffective :
      (s : ApiTransaction)
      → IsEffective in_current in_previous previously_executed currently_executed s
      → lookup s.hash by_hash ≡ some s
  lookup-of_IsEffective s (inl m) =
      rw (lookup-by_hash s.hash)
        (rw (last_with-of_Memᴰ currently_executed s unique_executed m) refl)
  lookup-of_IsEffective s (inr (m, previous, executed, now)) = rw (lookup-by_hash s.hash) (
      rw (last_with-of_LacksHash currently_executed s.hash now) (
        rw (holds-of_LacksHash previously_executed s.hash executed) (
          rw (holds-of_LacksHash in_previous s.hash previous)
            (rw (last_with-of_Memᴰ in_current s unique_current m) refl))))

  -- When a hash stands for one transaction of the block and for one executed result, the map holds
  -- exactly the effective transactions.
  pub effective_txs_by_hash_lem :
      (s : ApiTransaction)
      → Memᴰ s (values by_hash)
        ↔ IsEffective in_current in_previous previously_executed currently_executed s
  effective_txs_by_hash_lem s = (
    λ m. IsEffective-of_lookup s (lookup-of_values s by_hash by_hash-ByHash m),
    λ e. values-of_lookup s by_hash (lookup-of_IsEffective s e),
  )
