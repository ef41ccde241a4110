-- ===== src/Provider/Scheduled/Descendants.antt =====
-- server/provider/scheduledMiniblocks.go: which contract results
-- `findImmediatelyExecutingContractResults` finds, and why its recursion ends.
use rosetta_images.Base.{
  ℕ, zero, suc, ◌<◌, ◌≡◌, refl, sym, subst, ◌∙◌, ◌⊎◌, inl, inr, ◌↔◌, Bool, true, false, not, Option,
  some, List, [], ◌∷◌, ◌++◌, append_assoc, append-nil, arith, Bytes, Dict, ◌==◌, bytes_eq, nat_eq,
  bytes_eq_iff, if◌then◌else◌, keep, All, Memᴰ, head, tail, lookup, insert, lookup-insert,
  Memᴰ-keep, Memᴰ-of_keep, All-Memᴰ,
}
use mathlib.Core.List.Memᴰ
use rosetta_images.Api.{ApiTransaction}
use rosetta_images.Provider.Scheduled.{
  results_of, found_or_empty, direct_results_from, direct_contract_results_by_hash, retain_results,
  find_immediately_executing_contract_results_of_transaction, results_of_transactions, ◌>>=?◌,
  find_immediately_executing_contract_results,
}

-- `s` hangs below the transaction of hash `hash` by links "previous transaction hash" between
-- `items` of the shard.
pub data Descends (self_shard : ℕ) (items : List ApiTransaction) (s : ApiTransaction)
    : Bytes → Type 0 where
  direct :
      {hash : Bytes}
      → Memᴰ s items
      → s.previous_transaction_hash ≡ hash
      → s.source_shard ≡ self_shard
      → Descends self_shard items s hash
  through :
      {hash : Bytes} (r : ApiTransaction)
      → Memᴰ r items
      → r.previous_transaction_hash ≡ hash
      → r.source_shard ≡ self_shard
      → Descends self_shard items s r.hash
      → Descends self_shard items s hash

results_of-insert :
    (k j : Bytes) (txs : List ApiTransaction) (m : Dict (List ApiTransaction))
    → results_of j (insert k txs m) ≡ (if k == j then txs else results_of j m)
results_of-insert k j txs m =
    rw (lookup-insert k j txs m)
      (elim (k == j)
        as (λ b.
          found_or_empty (if b then some txs else lookup j m)
          ≡ (if b then txs else results_of j m)) [ true ↦ refl | false ↦ refl ])

added_to :
    (hash k : Bytes) (item : ApiTransaction) (m : Dict (List ApiTransaction))
    (rest : List ApiTransaction) (b : Bool)
    → (k == hash) ≡ b
    → (if b then results_of k m ++ item ∷ [] else results_of hash m) ++ rest
      ≡ results_of hash m ++ (if b then item ∷ rest else rest)
added_to hash k item m rest true h =
    rw ((bytes_eq_iff k hash).0 h) (append_assoc (results_of hash m) (item ∷ []) rest)
added_to hash k item m rest false h = refl

results_of-direct_results_from :
    (hash : Bytes) (m : Dict (List ApiTransaction)) (items : List ApiTransaction)
    → results_of hash (direct_results_from m items)
      ≡ results_of hash m
        ++ keep (λ (r : ApiTransaction). r.previous_transaction_hash == hash) items
unfolding direct_results_from keep
results_of-direct_results_from hash m [] = sym (append-nil (results_of hash m))
results_of-direct_results_from hash m (item ∷ items) =
    let k = item.previous_transaction_hash in
    rw (results_of-direct_results_from hash (insert k (results_of k m ++ item ∷ []) m) items) (
      rw (results_of-insert k hash (results_of k m ++ item ∷ []) m) (
        added_to hash k item m
          (keep (λ (r : ApiTransaction). r.previous_transaction_hash == hash) items) (k == hash)
          refl))

results_of-direct_contract_results_by_hash :
    (hash : Bytes) (items : List ApiTransaction)
    → results_of hash (direct_contract_results_by_hash items)
      ≡ keep (λ (r : ApiTransaction). r.previous_transaction_hash == hash) items
unfolding direct_contract_results_by_hash lookup
results_of-direct_contract_results_by_hash hash items = results_of-direct_results_from hash [] items

-- The loop ended, and its list has exactly the transactions that `Q` tells.
abbrev pub Finds : Option (List ApiTransaction) → (ApiTransaction → Type 0) → Type 0
Finds o Q = (out : List ApiTransaction) × (o ≡ some out) × ((s : ApiTransaction) → Memᴰ s out ↔ Q s)

module _ (self_shard : ℕ) (Q : ApiTransaction → ApiTransaction → Type 0) where
  -- What the loop over `rs` retains.
  abbrev Retained : List ApiTransaction → ApiTransaction → Type 0
  Retained rs s =
      (r : ApiTransaction) × Memᴰ r rs × (r.source_shard ≡ self_shard) × ((s ≡ r) ⊎ Q r s)

  Retained-skip :
      (r : ApiTransaction) (rs : List ApiTransaction) (s : ApiTransaction)
      → (r.source_shard == self_shard) ≡ false
      → Retained (r ∷ rs) s
      → Retained rs s
  Retained-skip r rs s h (q, head e, shard, k) =
      ground (arith, subst (λ (t : ApiTransaction). t.source_shard ≡ self_shard) e shard, h)
  Retained-skip r rs s h (q, tail m, shard, k) = (q, m, shard, k)

  Retained-of_Memᴰ :
      (r : ApiTransaction) (rs part rest : List ApiTransaction) (s : ApiTransaction)
      → r.source_shard ≡ self_shard
      → (Memᴰ s part → Q r s)
      → (Memᴰ s rest → Retained rs s)
      → Memᴰ s (r ∷ part ++ rest)
      → Retained (r ∷ rs) s
  Retained-of_Memᴰ r rs part rest s shard here there (head e) = (r, head refl, shard, inl e)
  Retained-of_Memᴰ r rs part rest s shard here there (tail m) = elim (Memᴰ.append_cases part m) [
    | inl n ↦ (r, head refl, shard, inr (here n))
    | inr n ↦ let (q, mq, shard', k) = there n in (q, tail mq, shard', k)
  ]

  Memᴰ-of_retained :
      (r : ApiTransaction) (rs part rest : List ApiTransaction) (s : ApiTransaction)
      → (Q r s → Memᴰ s part)
      → (Retained rs s → Memᴰ s rest)
      → Retained (r ∷ rs) s
      → Memᴰ s (r ∷ part ++ rest)
  Memᴰ-of_retained r rs part rest s here there (q, head e, shard, inl d) = head (d ∙ e)
  Memᴰ-of_retained r rs part rest s here there (q, head e, shard, inr k) =
      tail (Memᴰ.append_left rest (here (subst (λ t. Q t s) e k)))
  Memᴰ-of_retained r rs part rest s here there (q, tail m, shard, k) =
      tail (Memᴰ.append_right part (there (q, m, shard, k)))

module _ (self_shard : ℕ) (descend : ApiTransaction → Option (List ApiTransaction))
    (Q : ApiTransaction → ApiTransaction → Type 0) where
  retain_one :
      (r : ApiTransaction) (rs : List ApiTransaction) (others : Option (List ApiTransaction))
      (b : Bool)
      → (r.source_shard == self_shard) ≡ b
      → (r.source_shard ≡ self_shard → Finds (descend r) (Q r))
      → Finds others (Retained self_shard Q rs)
      → Finds
          (if not b
            then others
            else descend r >>=? λ part. others >>=? λ rest. some (r ∷ part ++ rest))
          (Retained self_shard Q (r ∷ rs))
  retain_one r rs others true h here (rest, hr, there) =
      let shard = (nat_eq.equal_iff r.source_shard self_shard).0 h in
      let (part, hp, members) = here shard in
      (
        r ∷ part ++ rest,
        rw hp (rw hr refl),
        λ s. (
          Retained-of_Memᴰ self_shard Q r rs part rest s shard (members s).0 (there s).0,
          Memᴰ-of_retained self_shard Q r rs part rest s (members s).1 (there s).1,
        ),
      )
  retain_one r rs others false h here (rest, hr, there) = (
    rest,
    hr,
    λ s. (
      λ m. let (q, mq, shard, k) = (there s).0 m in (q, tail mq, shard, k),
      λ k. (there s).1 (Retained-skip self_shard Q r rs s h k),
    ),
  )

  retain_results-Finds :
      (rs : List ApiTransaction)
      → ((r : ApiTransaction) → Memᴰ r rs → r.source_shard ≡ self_shard → Finds (descend r) (Q r))
      → Finds (retain_results descend self_shard rs) (Retained self_shard Q rs)
  unfolding retain_results
  retain_results-Finds [] k = ([], refl, λ s. (λ m. elim m [ ], λ r. elim r.1 [ ]))
  retain_results-Finds (r ∷ rs) k =
      retain_one r rs (retain_results descend self_shard rs) (r.source_shard == self_shard) refl
        (k r (head refl)) (retain_results-Finds rs (λ q m. k q (tail m)))

nothing_below_zero : (n : ℕ) → n < 0 → ⊥
nothing_below_zero n h = omega arith

Finds-iff :
    {o : Option (List ApiTransaction)} {P Q : ApiTransaction → Type 0}
    → ((s : ApiTransaction) → P s ↔ Q s)
    → Finds o P
    → Finds o Q
Finds-iff k (out, h, members) =
    (out, h, λ s. (λ m. (k s).0 ((members s).0 m), λ q. (members s).1 ((k s).1 q)))

-- What hangs below one of the transactions.
abbrev pub DescendsFrom : ℕ → (items txs : List ApiTransaction) → ApiTransaction → Type 0
DescendsFrom self_shard items txs s =
    (tx : ApiTransaction) × Memᴰ tx txs × Descends self_shard items s tx.hash

-- The links "previous transaction hash" go down in a rank of hashes.
abbrev pub HasDescendingLinks : (Bytes → ℕ) → List ApiTransaction → Type 0
HasDescendingLinks rank =
    All (λ (item : ApiTransaction). rank item.hash < rank item.previous_transaction_hash)

-- The fuel is above the rank of each transaction.
abbrev pub HasFuel : (Bytes → ℕ) → ℕ → List ApiTransaction → Type 0
HasFuel rank fuel = All (λ (tx : ApiTransaction). rank tx.hash < fuel)

module _ (self_shard : ℕ) (items : List ApiTransaction) (rank : Bytes → ℕ)
    (descending : All
      (λ (item : ApiTransaction). rank item.hash < rank item.previous_transaction_hash)
      items) where
  Descends-of_Retained :
      (hash : Bytes) (s : ApiTransaction)
      → Retained self_shard
          (λ r t. Descends self_shard items t r.hash)
          (keep (λ (r : ApiTransaction). r.previous_transaction_hash == hash) items)
          s
        ↔ Descends self_shard items s hash
  Descends-of_Retained hash s = (to, from)
    where
      to :
          Retained self_shard
            (λ r t. Descends self_shard items t r.hash)
            (keep (λ (r : ApiTransaction). r.previous_transaction_hash == hash) items)
            s
          → Descends self_shard items s hash
      to (r, m, shard, inl e) =
          let (mi, hb) = Memᴰ-of_keep _ items m in
          subst (λ t. Descends self_shard items t hash) (sym e)
            (direct mi ((bytes_eq_iff _ _).0 hb) shard)
      to (r, m, shard, inr d) =
          let (mi, hb) = Memᴰ-of_keep _ items m in through r mi ((bytes_eq_iff _ _).0 hb) shard d

      from :
          Descends self_shard items s hash
          → Retained self_shard
              (λ r t. Descends self_shard items t r.hash)
              (keep (λ (r : ApiTransaction). r.previous_transaction_hash == hash) items)
              s
      from (direct m link shard) =
          (s, Memᴰ-keep _ items m ((bytes_eq_iff _ _).1 link), shard, inl refl)
      from (through r m link shard d) =
          (r, Memᴰ-keep _ items m ((bytes_eq_iff _ _).1 link), shard, inr d)

  rank-link :
      (hash : Bytes) (r : ApiTransaction)
      → Memᴰ r (keep (λ (q : ApiTransaction). q.previous_transaction_hash == hash) items)
      → rank r.hash < rank hash
  rank-link hash r m =
      let (mi, hb) = Memᴰ-of_keep _ items m in
      subst (λ h. rank r.hash < rank h) ((bytes_eq_iff _ _).0 hb) (All-Memᴰ _ items descending mi)

  find_of_transaction-Finds :
      (fuel : ℕ) (tx : ApiTransaction)
      → rank tx.hash < fuel
      → Finds
          (find_immediately_executing_contract_results_of_transaction fuel self_shard tx
            (direct_contract_results_by_hash items))
          (λ s. Descends self_shard items s tx.hash)
  unfolding find_immediately_executing_contract_results_of_transaction
  find_of_transaction-Finds zero tx h = elim (nothing_below_zero (rank tx.hash) h) [ ]
  find_of_transaction-Finds (suc fuel) tx h =
      rw (results_of-direct_contract_results_by_hash tx.hash items) (
        Finds-iff (Descends-of_Retained tx.hash) (
          retain_results-Finds self_shard _ (λ r s. Descends self_shard items s r.hash) _
            (λ r m shard.
              find_of_transaction-Finds fuel r (omega (arith, rank-link tx.hash r m, h)))))

  results_of_transactions-Finds :
      (fuel : ℕ) (txs : List ApiTransaction)
      → HasFuel rank fuel txs
      → Finds
          (results_of_transactions fuel self_shard txs (direct_contract_results_by_hash items))
          (DescendsFrom self_shard items txs)
  unfolding results_of_transactions
  results_of_transactions-Finds fuel [] h = ([], refl, λ s. (λ m. elim m [ ], λ r. elim r.1 [ ]))
  results_of_transactions-Finds fuel (tx ∷ txs) (h, hs) =
      let (part, hp, here) = find_of_transaction-Finds fuel tx h in
      let (rest, hr, there) = results_of_transactions-Finds fuel txs hs in
      (part ++ rest, rw hp (rw hr refl), λ s. (to s here there, from s here there))
    where
      to :
          {txs part rest : List ApiTransaction} {tx : ApiTransaction} (s : ApiTransaction)
          → ((s : ApiTransaction) → Memᴰ s part ↔ Descends self_shard items s tx.hash)
          → ((s : ApiTransaction) → Memᴰ s rest ↔ DescendsFrom self_shard items txs s)
          → Memᴰ s (part ++ rest)
          → DescendsFrom self_shard items (tx ∷ txs) s
      to {part} {tx} s here there m = elim (Memᴰ.append_cases part m) [
        | inl n ↦ (tx, head refl, (here s).0 n)
        | inr n ↦ let (t, mt, d) = (there s).0 n in (t, tail mt, d)
      ]

      from :
          {txs part rest : List ApiTransaction} {tx : ApiTransaction} (s : ApiTransaction)
          → ((s : ApiTransaction) → Memᴰ s part ↔ Descends self_shard items s tx.hash)
          → ((s : ApiTransaction) → Memᴰ s rest ↔ DescendsFrom self_shard items txs s)
          → DescendsFrom self_shard items (tx ∷ txs) s
          → Memᴰ s (part ++ rest)
      from {rest} s here there (t, head e, d) =
          Memᴰ.append_left rest
            ((here s).1 (subst (λ (t : ApiTransaction). Descends self_shard items s t.hash) e d))
      from {part} s here there (t, tail m, d) = Memᴰ.append_right part ((there s).1 (t, m, d))

-- When the links "previous transaction hash" of the candidates go down in some rank of hashes, and
-- the fuel is above the rank of each transaction, the search ends; it finds exactly the candidates
-- that hang below one of the transactions by links between candidates of the shard itself.
pub find_immediately_executing_contract_results_lem :
    (self_shard : ℕ) (items : List ApiTransaction) (rank : Bytes → ℕ) (fuel : ℕ)
    (txs : List ApiTransaction)
    → HasDescendingLinks rank items
    → HasFuel rank fuel txs
    → (out : List ApiTransaction) × (find_immediately_executing_contract_results fuel self_shard txs
          items
        ≡ some out)
      × ((s : ApiTransaction) → Memᴰ s out ↔ DescendsFrom self_shard items txs s)
unfolding find_immediately_executing_contract_results
find_immediately_executing_contract_results_lem self_shard items rank fuel txs descending enough =
    results_of_transactions-Finds self_shard items rank descending fuel txs enough

pub Memᴰ-of_Descends :
    (self_shard : ℕ) (items : List ApiTransaction) (s : ApiTransaction) {hash : Bytes}
    → Descends self_shard items s hash
    → Memᴰ s items
Memᴰ-of_Descends self_shard items s (direct m link shard) = m
Memᴰ-of_Descends self_shard items s (through r m link shard d) =
    Memᴰ-of_Descends self_shard items s d
