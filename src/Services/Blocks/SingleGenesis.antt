-- ===== src/Services/Blocks/SingleGenesis.antt =====
-- However the requests for the genesis block interleave, there is one genesis block.
use mathlib.Core.Option.{none-ne-some, some-injective}
use rosetta_images.Base.{
  ℕ, ◌≡◌, ◌≢◌, refl, sym, subst, ◌∙◌, Option, none, some, ok, err, ◌==◌, nat_eq, nat_beq_iff,
  Bool-cases, inl, inr, arith,
}
use rosetta_images.Rosetta.{RosettaBlock}
use rosetta_images.Services.Interface.{NetworkProvider}
use rosetta_images.Services.Blocks.{GenesisBlock, do_get_genesis_block}
use rosetta_images.Services.Blocks.Locking.{
  Phase, Reach, Response, Step, System, fetch, fetched, fetching, has_read, here, lock, locked,
  miss, new_system, next, r_lock, r_unlock, read, reading, return_error, return_found, return_read,
  return_stored, returned, set, starting, store, stored, unlocked,
}

-- Holds the mutex for writing.
abbrev pub IsWriting : Phase → Type 0
IsWriting locked = Unit
IsWriting fetching = Unit
IsWriting (fetched r) = Unit
IsWriting (stored block) = Unit
IsWriting _ = ⊥

abbrev pub IsAnswer : RosettaBlock → Type 0
IsAnswer block = (provider : NetworkProvider) × (do_get_genesis_block provider ≡ ok block)

-- What a goroutine knows of the field, by where it is.
abbrev Fits : GenesisBlock → Phase → Type 0
Fits g (has_read (some block)) = g ≡ some block
Fits g (unlocked (some block)) = g ≡ some block
Fits g fetching = g ≡ none
Fits g (fetched (ok block)) = (g ≡ none) × IsAnswer block
Fits g (stored block) = g ≡ some block
Fits g (returned (ok block)) = g ≡ some block
Fits g _ = Unit

Fits-after_store :
    (block : RosettaBlock) (p : Phase) → Fits none p → ¬ IsWriting p → Fits (some block) p
Fits-after_store block starting h w = tt
Fits-after_store block reading h w = tt
Fits-after_store block (has_read none) h w = tt
Fits-after_store block (has_read (some b)) h w = elim (none-ne-some b h) [ ]
Fits-after_store block (unlocked none) h w = tt
Fits-after_store block (unlocked (some b)) h w = elim (none-ne-some b h) [ ]
Fits-after_store block locked h w = tt
Fits-after_store block fetching h w = elim (w tt) [ ]
Fits-after_store block (fetched r) h w = elim (w tt) [ ]
Fits-after_store block (stored b) h w = elim (w tt) [ ]
Fits-after_store block (returned (ok b)) h w = elim (none-ne-some b h) [ ]
Fits-after_store block (returned (err e)) h w = tt

Fits-has_read : (g g' : GenesisBlock) → g ≡ g' → Fits g (has_read g')
Fits-has_read g none e = tt
Fits-has_read g (some block) e = e

Fits-unlocked : (g g' : GenesisBlock) → Fits g (has_read g') → Fits g (unlocked g')
Fits-unlocked g none h = tt
Fits-unlocked g (some block) h = h

Fits-fetched :
    (g : GenesisBlock) (provider : NetworkProvider) (r : Response)
    → do_get_genesis_block provider ≡ r
    → g ≡ none
    → Fits g (fetched r)
Fits-fetched g provider (ok block) e empty = (empty, (provider, e))
Fits-fetched g provider (err e') e empty = tt

-- To show something of every goroutine after one has moved.
set-elim :
    (P : ℕ → Phase → Type 0) (t : ℕ) (p : Phase) (goroutines : ℕ → Phase)
    → P t p
    → ((u : ℕ) → u ≢ t → P u (goroutines u))
    → (u : ℕ) → P u (set t p goroutines u)
set-elim P t p goroutines moved others u = elim (Bool-cases (u == t)) [
  | inl e ↦ rw (e, (nat_beq_iff u t).0 e) moved
  | inr e ↦ rw e (others u (λ same. ground arith))
]

abbrev Holds : Option ℕ → GenesisBlock → ℕ → Phase → Type 0
Holds writer g u p = (IsWriting p → writer ≡ some u) × Fits g p

-- Who writes holds the mutex, each goroutine knows what the field is, and the field is an answer.
abbrev pub IsSafe : System → Type 0
IsSafe s =
    ((u : ℕ) → Holds s.writer s.genesis_block u (s.goroutines u))
    × ((block : RosettaBlock) → s.genesis_block ≡ some block → IsAnswer block)

module _ (s : System) (t : ℕ) (safe : IsSafe s) where
  was : (p : Phase) → s.goroutines t ≡ p → Holds s.writer s.genesis_block t p
  was p e = subst (Holds s.writer s.genesis_block t) e (safe.0 t)

  moves :
      (p : Phase)
      → Holds s.writer s.genesis_block t p
      → (u : ℕ) → Holds s.writer s.genesis_block u (set t p s.goroutines u)
  moves p h = set-elim (Holds s.writer s.genesis_block) t p s.goroutines h (λ u _. safe.0 u)

  -- Nobody else writes, so the mutex can be let go.
  lets_go :
      (p : Phase)
      → s.writer ≡ some t
      → ¬ IsWriting p
      → Fits s.genesis_block p
      → (u : ℕ) → Holds none s.genesis_block u (set t p s.goroutines u)
  lets_go p e w fits =
      set-elim (Holds none s.genesis_block) t p s.goroutines
        ((λ writing. elim (w writing) [ ]), fits)
        (λ u other. (
          (λ writing. elim (other (sym (some-injective t u (sym e ∙ (safe.0 u).0 writing)))) [ ]),
          (safe.0 u).1,
        ))

  takes : s.writer ≡ none → (u : ℕ) → Holds (some t) s.genesis_block u (set t locked s.goroutines u)
  takes e =
      set-elim (Holds (some t) s.genesis_block) t locked s.goroutines ((λ _. refl), tt)
        (λ u other.
          ((λ writing. elim (none-ne-some u (sym e ∙ (safe.0 u).0 writing)) [ ]), (safe.0 u).1))

  stores :
      (block : RosettaBlock)
      → s.writer ≡ some t
      → s.genesis_block ≡ none
      → (u : ℕ) → Holds s.writer (some block) u (set t (stored block) s.goroutines u)
  stores block e empty =
      set-elim (Holds s.writer (some block)) t (stored block) s.goroutines ((λ _. e), refl)
        (λ u other. (
          (safe.0 u).0,
          Fits-after_store block (s.goroutines u)
              (subst (λ g. Fits g (s.goroutines u)) empty (safe.0 u).1)
              (λ writing. other (sym (some-injective t u (sym e ∙ (safe.0 u).0 writing)))),
        ))

-- Every step keeps the invariant.
pub Step-IsSafe : {s t : System} → Step s t → IsSafe s → IsSafe t
Step-IsSafe (r_lock s t e free) safe = (moves s t safe reading ((λ w. elim w [ ]), tt), safe.1)
Step-IsSafe (read s t e) safe = (
  moves s t safe (has_read s.genesis_block)
      ((λ w. elim w [ ]), Fits-has_read s.genesis_block s.genesis_block refl),
  safe.1,
)
Step-IsSafe (r_unlock s t block e) safe = (
  moves s t safe (unlocked block)
      ((λ w. elim w [ ]), Fits-unlocked s.genesis_block block (was s t safe (has_read block) e).1),
  safe.1,
)
Step-IsSafe (return_read s t block e) safe = (
  moves s t safe (returned (ok block))
      ((λ w. elim w [ ]), (was s t safe (unlocked (some block)) e).1),
  safe.1,
)
Step-IsSafe (lock s t e free alone) safe = (takes s t safe free, safe.1)
Step-IsSafe (return_found s t block e found) safe =
    (lets_go s t safe (returned (ok block)) ((was s t safe locked e).0 tt) (λ w. w) found, safe.1)
Step-IsSafe (miss s t e empty) safe =
    (moves s t safe fetching ((λ _. (was s t safe locked e).0 tt), empty), safe.1)
Step-IsSafe (fetch s t provider e) safe = (
  moves s t safe (fetched (do_get_genesis_block provider)) (
    (λ _. (was s t safe fetching e).0 tt),
    Fits-fetched s.genesis_block provider (do_get_genesis_block provider) refl
        (was s t safe fetching e).1,
  ),
  safe.1,
)
Step-IsSafe (return_error s t e' e) safe = (
  lets_go s t safe (returned (err e')) ((was s t safe (fetched (err e')) e).0 tt) (λ w. w) tt,
  safe.1,
)
Step-IsSafe (store s t block e) safe =
    let (writing, (empty, answer)) = was s t safe (fetched (ok block)) e in
    (
      stores s t safe block (writing tt) empty,
      λ b same. subst IsAnswer (some-injective block b same) answer,
    )
Step-IsSafe (return_stored s t block e) safe =
    let (writing, fits) = was s t safe (stored block) e in
    (lets_go s t safe (returned (ok block)) (writing tt) (λ w. w) fits, safe.1)

Reach-IsSafe : {s t : System} → Reach s t → IsSafe s → IsSafe t
Reach-IsSafe here safe = safe
Reach-IsSafe (next before step) safe = Step-IsSafe step (Reach-IsSafe before safe)

new_system-IsSafe : IsSafe new_system
new_system-IsSafe = (λ u. ((λ w. elim w [ ]), tt), λ block e. elim (none-ne-some block e) [ ])

Step-keeps :
    {s t : System} (block : RosettaBlock)
    → Step s t
    → IsSafe s
    → s.genesis_block ≡ some block
    → t.genesis_block ≡ some block
Step-keeps block (r_lock s t e free) safe h = h
Step-keeps block (read s t e) safe h = h
Step-keeps block (r_unlock s t b e) safe h = h
Step-keeps block (return_read s t b e) safe h = h
Step-keeps block (lock s t e free alone) safe h = h
Step-keeps block (return_found s t b e found) safe h = h
Step-keeps block (miss s t e empty) safe h = h
Step-keeps block (fetch s t provider e) safe h = h
Step-keeps block (return_error s t e' e) safe h = h
Step-keeps block (store s t b e) safe h =
    elim (none-ne-some block (sym (was s t safe (fetched (ok b)) e).1.0 ∙ h)) [ ]
Step-keeps block (return_stored s t b e) safe h = h

-- However many requests for the genesis block run at the same time, and however they interleave:
-- all that return a block return the same one, which the provider gave; a block that is stored
-- stays, whatever step comes next; and no two requests ask the provider at the same time.
pub single_genesis :
    {s : System}
    → Reach new_system s
    → ((t u : ℕ) (a b : RosettaBlock)
        → s.goroutines t ≡ returned (ok a)
        → s.goroutines u ≡ returned (ok b)
        → (a ≡ b) × IsAnswer a)
      × ((s' : System) (block : RosettaBlock)
          → Step s s'
          → s.genesis_block ≡ some block
          → s'.genesis_block ≡ some block)
      × ((t u : ℕ) → s.goroutines t ≡ fetching → s.goroutines u ≡ fetching → t ≡ u)
single_genesis {s} reached = (same, (λ s' block step e. Step-keeps block step safe e), alone)
  where
    safe : IsSafe s
    safe = Reach-IsSafe reached new_system-IsSafe

    same :
        (t u : ℕ) (a b : RosettaBlock)
        → s.goroutines t ≡ returned (ok a)
        → s.goroutines u ≡ returned (ok b)
        → (a ≡ b) × IsAnswer a
    same t u a b e e' =
        let field = (was s t safe (returned (ok a)) e).1 in
        (some-injective a b (sym field ∙ (was s u safe (returned (ok b)) e').1), safe.1 a field)

    alone : (t u : ℕ) → s.goroutines t ≡ fetching → s.goroutines u ≡ fetching → t ≡ u
    alone t u e e' =
        some-injective t u (sym ((was s t safe fetching e).0 tt) ∙ (was s u safe fetching e').0 tt)
