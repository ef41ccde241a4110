-- ===== src/Provider/Scheduled/ByHash.antt =====
-- server/provider/scheduledMiniblocks.go: what the map `effectiveTxsByHash` holds after its loops.
use rosetta_images.Base.{
  ◌≡◌, ◌≢◌, refl, sym, ap, subst, ◌∙◌, Bool, true, false, Option, none, some, List, [], ◌∷◌, arith,
  Bytes, Dict, ◌==◌, bytes_eq, bytes_eq_iff, if◌then◌else◌, any, Memᴰ, head, tail, lookup, insert,
  delete, lookup-insert, lookup-delete,
}
use rosetta_images.Api.{ApiTransaction}
use rosetta_images.Provider.Scheduled.{insert_all, delete_all, values}

abbrev pub or_else {ℓ} : {A : Type ℓ} → Option A → Option A → Option A
or_else (some a) o = some a
or_else none o = o

-- The last transaction of a hash, if there is one.
unfoldable pub last_with : Bytes → List ApiTransaction → Option ApiTransaction
last_with hash [] = none
last_with hash (t ∷ ts) = or_else (last_with hash ts) (if t.hash == hash then some t else none)

abbrev pub holds : Bytes → List ApiTransaction → Bool
holds hash txs = any (λ (t : ApiTransaction). t.hash == hash) txs

or_else_assoc :
    (o : Option ApiTransaction) (t : ApiTransaction) (b : Bool) (rest : Option ApiTransaction)
    → or_else o (if b then some t else rest) ≡ or_else (or_else o (if b then some t else none)) rest
or_else_assoc none t true rest = refl
or_else_assoc none t false rest = refl
or_else_assoc (some s) t b rest = refl

pub lookup-insert_all :
    (hash : Bytes) (txs : List ApiTransaction) (m : Dict ApiTransaction)
    → lookup hash (insert_all txs m) ≡ or_else (last_with hash txs) (lookup hash m)
unfolding insert_all last_with
lookup-insert_all hash [] m = refl
lookup-insert_all hash (t ∷ ts) m = rw (lookup-insert_all hash ts (insert t.hash t m)) (
    rw (lookup-insert t.hash hash t m)
      (or_else_assoc (last_with hash ts) t (t.hash == hash) (lookup hash m)))

if_if :
    (b c : Bool) (o : Option ApiTransaction)
    → (if c then none else (if b then none else o)) ≡ (if (if b then true else c) then none else o)
if_if true true o = refl
if_if true false o = refl
if_if false c o = refl

pub lookup-delete_all :
    (hash : Bytes) (txs : List ApiTransaction) (m : Dict ApiTransaction)
    → lookup hash (delete_all txs m) ≡ (if holds hash txs then none else lookup hash m)
unfolding delete_all any
lookup-delete_all hash [] m = refl
lookup-delete_all hash (t ∷ ts) m =
    rw (lookup-delete_all hash ts (delete t.hash m))
      (rw (lookup-delete t.hash hash m) (if_if (t.hash == hash) (holds hash ts) (lookup hash m)))

value_or : ApiTransaction → Option ApiTransaction → ApiTransaction
value_or t none = t
value_or t (some s) = s

some-injective : {s t : ApiTransaction} → Path (Option ApiTransaction) (some s) (some t) → s ≡ t
unfolding value_or
some-injective {s} p = ap (value_or s) p

last_with_if :
    (hash : Bytes) (t : ApiTransaction) (ts : List ApiTransaction) (b : Bool)
    (o : Option ApiTransaction) {s : ApiTransaction}
    → (t.hash == hash) ≡ b
    → (o ≡ some s → Memᴰ s ts × (s.hash ≡ hash))
    → or_else o (if b then some t else none) ≡ some s
    → Memᴰ s (t ∷ ts) × (s.hash ≡ hash)
last_with_if hash t ts b (some r) e k h = let (m, hs) = k h in (tail m, hs)
last_with_if hash t ts true none e k h =
    subst (λ r. Memᴰ r (t ∷ ts) × (r.hash ≡ hash)) (some-injective h)
      (head refl, (bytes_eq_iff t.hash hash).0 e)
last_with_if hash t ts false none e k h = cc

pub Memᴰ-of_last_with :
    (hash : Bytes) (txs : List ApiTransaction) {s : ApiTransaction}
    → last_with hash txs ≡ some s
    → Memᴰ s txs × (s.hash ≡ hash)
unfolding last_with
Memᴰ-of_last_with hash [] h = cc
Memᴰ-of_last_with hash (t ∷ ts) h =
    last_with_if hash t ts (t.hash == hash) (last_with hash ts) refl (Memᴰ-of_last_with hash ts) h

or_else-none : (o p : Option ApiTransaction) → or_else o p ≡ none → (o ≡ none) × (p ≡ none)
or_else-none none p h = (refl, h)
or_else-none (some a) p h = cc

pub hash-of_last_with-none :
    (hash : Bytes) (txs : List ApiTransaction) {s : ApiTransaction}
    → last_with hash txs ≡ none
    → Memᴰ s txs
    → s.hash ≢ hash
unfolding last_with
hash-of_last_with-none hash [] h m = elim m [ ]
hash-of_last_with-none hash (t ∷ ts) {s} h (head e) =
    let (_, absent) = or_else-none (last_with hash ts) _ h in
    λ d.
      absent_if (t.hash == hash) ((bytes_eq_iff t.hash hash).1 (ap (λ r. r.hash) (sym e) ∙ d))
        absent
  where
    absent_if :
        (b : Bool) → b ≡ true → Path (Option ApiTransaction) (if b then some t else none) none → ⊥
    absent_if true e h = cc
    absent_if false e h = cc
hash-of_last_with-none hash (t ∷ ts) h (tail m) =
    hash-of_last_with-none hash ts (or_else-none (last_with hash ts) _ h).0 m

-- The entries of a Go map: one for each key, here stored under the hash of its transaction.
abbrev pub ByHash : Dict ApiTransaction → Type 0
ByHash [] = Unit
ByHash ((k, t) ∷ m) = (k ≡ t.hash) × (lookup k m ≡ none) × ByHash m

insert-ByHash :
    (t : ApiTransaction) (m : Dict ApiTransaction) → ByHash m → ByHash (insert t.hash t m)
unfolding insert lookup
insert-ByHash t [] h = (refl, refl, tt)
insert-ByHash t ((j, w) ∷ m) (hk, fresh, h) = insert_if (insert-ByHash t m h) (j == t.hash) refl
  where
    insert_if :
        ByHash (insert t.hash t m)
        → (b : Bool) → (j == t.hash) ≡ b
        → ByHash (if b then (t.hash, t) ∷ m else (j, w) ∷ insert t.hash t m)
    insert_if rest true e =
        (refl, subst (λ k. lookup k m ≡ none) ((bytes_eq_iff j t.hash).0 e) fresh, h)
    insert_if rest false e = (
      hk,
      rw (lookup-insert t.hash j t m)
          (ground (arith, bytes_eq_iff t.hash j, bytes_eq_iff j t.hash, fresh, e)),
      rest,
    )

delete-ByHash : (k : Bytes) (m : Dict ApiTransaction) → ByHash m → ByHash (delete k m)
unfolding delete lookup
delete-ByHash k [] h = tt
delete-ByHash k ((j, w) ∷ m) (hk, fresh, h) =
    elim (j == k) as (λ b. ByHash (if b then delete k m else (j, w) ∷ delete k m)) [
      | true ↦ delete-ByHash k m h
      | false ↦ (
        hk,
        rw (lookup-delete k j m) (elim (k == j) as (λ b. (if b then none else lookup j m) ≡ none) [
          | true ↦ refl
          | false ↦ fresh
        ]),
        delete-ByHash k m h,
      )
    ]

pub insert_all-ByHash :
    (txs : List ApiTransaction) (m : Dict ApiTransaction) → ByHash m → ByHash (insert_all txs m)
unfolding insert_all
insert_all-ByHash [] m h = h
insert_all-ByHash (t ∷ ts) m h = insert_all-ByHash ts (insert t.hash t m) (insert-ByHash t m h)

pub delete_all-ByHash :
    (txs : List ApiTransaction) (m : Dict ApiTransaction) → ByHash m → ByHash (delete_all txs m)
unfolding delete_all
delete_all-ByHash [] m h = h
delete_all-ByHash (t ∷ ts) m h = delete_all-ByHash ts (delete t.hash m) (delete-ByHash t.hash m h)

pub lookup-of_values :
    (s : ApiTransaction) (m : Dict ApiTransaction)
    → ByHash m
    → Memᴰ s (values m)
    → lookup s.hash m ≡ some s
unfolding lookup
lookup-of_values s [] h n = elim n [ ]
lookup-of_values s ((k, t) ∷ m) (hk, fresh, h) (head e) =
    rw ((bytes_eq_iff k s.hash).1 (hk ∙ ap (λ (r : ApiTransaction). r.hash) (sym e)))
      (ap some (sym e))
lookup-of_values s ((k, t) ∷ m) (hk, fresh, h) (tail n) =
    ground (arith, lookup-of_values s m h n, bytes_eq_iff k s.hash, fresh)

pub values-of_lookup :
    (s : ApiTransaction) (m : Dict ApiTransaction) → lookup s.hash m ≡ some s → Memᴰ s (values m)
unfolding lookup
values-of_lookup s [] e = cc
values-of_lookup s ((k, t) ∷ m) e = found_if (values-of_lookup s m) (k == s.hash) e
  where
    found_if :
        (lookup s.hash m ≡ some s → Memᴰ s (values m))
        → (b : Bool) → (if b then some t else lookup s.hash m) ≡ some s
        → Memᴰ s (t ∷ values m)
    found_if rest true e = head (some-injective (sym e))
    found_if rest false e = tail (rest e)
