-- ===== src/Services/Blocks/OneRequest.antt =====
-- A request for the genesis block that no other request holds up.
use rosetta_images.Base.{
  ℕ, ◌+◌, ◌-◌, ◌≡◌, refl, ◌∙◌, none, some, ok, err, nat_eq, nat_beq_iff, arith, ap, List, [], ◌∷◌,
}
use rosetta_images.Services.Interface.{NetworkProvider}
use rosetta_images.Services.Blocks.{
  GenesisBlock, do_get_genesis_block, get_genesis_block, store_if_ok,
}
use rosetta_images.Services.Blocks.Locking.{
  Phase, Response, Step, System, at, fetch, fetched, fetching, has_read, lock, locked, miss, r_lock,
  r_unlock, read, reading, return_error, return_read, return_stored, returned, set, return_found,
  starting, store, stored, unlocked,
}

-- The step is one of this goroutine, and what it fetches is from this provider.
abbrev pub IsStepOf : ℕ → NetworkProvider → {s u : System} → Step s u → Type 0
IsStepOf t provider (r_lock _ u _ _) = u ≡ t
IsStepOf t provider (read _ u _) = u ≡ t
IsStepOf t provider (r_unlock _ u _ _) = u ≡ t
IsStepOf t provider (return_read _ u _ _) = u ≡ t
IsStepOf t provider (lock _ u _ _ _) = u ≡ t
IsStepOf t provider (return_found _ u _ _ _) = u ≡ t
IsStepOf t provider (miss _ u _ _) = u ≡ t
IsStepOf t provider (fetch _ u p _) = (u ≡ t) × (p ≡ provider)
IsStepOf t provider (return_error _ u _ _) = u ≡ t
IsStepOf t provider (store _ u _ _) = u ≡ t
IsStepOf t provider (return_stored _ u _ _) = u ≡ t

-- What one goroutine reaches by its own steps, while all others wait.
pub data ReachAlone (t : ℕ) (provider : NetworkProvider) (s : System) : System → Type 0 where
  alone : ReachAlone t provider s s
  then_step :
      {u v : System}
      → ReachAlone t provider s u
      → (step : Step u v) → IsStepOf t provider step
      → ReachAlone t provider s v

set-same : (t : ℕ) (p : Phase) (goroutines : ℕ → Phase) → set t p goroutines t ≡ p
set-same t p goroutines = rw ((nat_beq_iff t t).1 refl) refl

-- Where the goroutines are when this one has been at some phases, the last in front.
abbrev through : ℕ → List Phase → (ℕ → Phase) → ℕ → Phase
through t [] goroutines = goroutines
through t (p ∷ phases) goroutines = set t p (through t phases goroutines)

abbrev first_phases : GenesisBlock → List Phase
first_phases g = unlocked g ∷ has_read g ∷ reading ∷ []

-- After the first check.
abbrev first_check : System → ℕ → System
first_check s t = record s {
  readers = s.readers + 1 - 1;
  goroutines = through t (first_phases s.genesis_block) s.goroutines;
}

abbrev behind_lock : System → ℕ → System
behind_lock s t = record (first_check s t) {
  writer = some t;
  goroutines = through t (fetching ∷ locked ∷ first_phases s.genesis_block) s.goroutines;
}

-- The states that have answered as one call does after the other, with the mutex free.
abbrev pub HasReturned : System → ℕ → Response × GenesisBlock → Type 0
HasReturned s t (r, g) =
    (s.goroutines t ≡ returned r) × (s.genesis_block ≡ g) × (s.writer ≡ none) × (s.readers ≡ 0)

module _ (s : System) (t : ℕ) (provider : NetworkProvider) (free : s.writer ≡ none)
    (no_readers : s.readers ≡ 0) (start : s.goroutines t ≡ starting) where
  is_at : (p : Phase) (phases : List Phase) → through t (p ∷ phases) s.goroutines t ≡ p
  is_at p phases = set-same t p (through t phases s.goroutines)

  no_readers_again : s.readers + 1 - 1 ≡ 0
  no_readers_again = omega (arith, no_readers)

  reach_first_check : ReachAlone t provider s (first_check s t)
  reach_first_check =
      let g = s.genesis_block in
      then_step
        (then_step (then_step alone (r_lock s t start free) refl) (read _ t (is_at reading []))
          refl)
        (r_unlock _ t g (is_at (has_read g) (reading ∷ []))) refl

  left_first_check :
      (g : GenesisBlock) → s.genesis_block ≡ g → (first_check s t).goroutines t ≡ unlocked g
  left_first_check g e =
      is_at (unlocked s.genesis_block) (has_read s.genesis_block ∷ reading ∷ []) ∙ ap unlocked e

  module _ (empty : s.genesis_block ≡ none) where
    -- The answer of the provider, behind the lock.
    reach_fetched :
        ReachAlone t provider s (at (behind_lock s t) t (fetched (do_get_genesis_block provider)))
    reach_fetched =
        then_step
          (then_step
            (then_step reach_first_check
              (lock _ t (left_first_check none empty) free no_readers_again) refl)
            (miss _ t (is_at locked (first_phases s.genesis_block)) empty) refl)
          (fetch _ t provider (is_at fetching (locked ∷ first_phases s.genesis_block))) (refl, refl)

    has_fetched :
        (r : Response)
        → do_get_genesis_block provider ≡ r
        → (at (behind_lock s t) t (fetched (do_get_genesis_block provider))).goroutines t
          ≡ fetched r
    has_fetched r e =
        is_at (fetched (do_get_genesis_block provider))
          (fetching ∷ locked ∷ first_phases s.genesis_block)
        ∙ ap fetched e

    answered :
        (r : Response)
        → do_get_genesis_block provider ≡ r
        → (s' : System) × ReachAlone t provider s s' × HasReturned s' t (store_if_ok r)
    answered (ok block) e =
        let phases =
          fetched (do_get_genesis_block provider)
          ∷ fetching
          ∷ locked
          ∷ first_phases s.genesis_block in
        (
          _,
          then_step (then_step reach_fetched (store _ t block (has_fetched (ok block) e)) refl)
              (return_stored _ t block (is_at (stored block) phases)) refl,
          (is_at (returned (ok block)) (stored block ∷ phases), refl, refl, no_readers_again),
        )
    answered (err e') e =
        let phases =
          fetched (do_get_genesis_block provider)
          ∷ fetching
          ∷ locked
          ∷ first_phases s.genesis_block in
        (
          _,
          then_step reach_fetched (return_error _ t e' (has_fetched (err e') e)) refl,
          (is_at (returned (err e')) phases, empty, refl, no_readers_again),
        )

  -- A request for the genesis block that starts while nobody holds the mutex gets through on its
  -- own: by steps of its goroutine alone, which fetch from this provider if at all, it returns, and
  -- the mutex is free then, of writers and of readers. What it returns, and what the service keeps
  -- then, are the answer and the block of the sequential definition.
  pub get_genesis_block_returns :
      (s' : System) × ReachAlone t provider s s'
      × HasReturned s' t (get_genesis_block provider s.genesis_block)
  unfolding get_genesis_block
  get_genesis_block_returns = checked s.genesis_block refl
    where
      checked :
          (g : GenesisBlock)
          → s.genesis_block ≡ g
          → (s' : System) × ReachAlone t provider s s'
            × HasReturned s' t (get_genesis_block provider g)
      checked none e = answered e (do_get_genesis_block provider) refl
      checked (some block) e = (
        _,
        then_step reach_first_check (return_read _ t block (left_first_check (some block) e)) refl,
        (is_at (returned (ok block)) (first_phases s.genesis_block), e, free, no_readers_again),
      )
