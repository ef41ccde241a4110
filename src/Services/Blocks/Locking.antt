-- ===== src/Services/Blocks/Locking.antt =====
-- server/services/blockService.go: `getGenesisBlock` as goroutines run it at the same time, with
-- the read-write mutex and the two checks.
use rosetta_images.Base.{
  ℕ, ◌+◌, ◌-◌, ◌≡◌, Option, none, some, Result, ok, err, ◌==◌, nat_eq, if◌then◌else◌,
}
use rosetta_images.Rosetta.{ApiError, RosettaBlock}
use rosetta_images.Services.Interface.{NetworkProvider}
use rosetta_images.Services.Blocks.{GenesisBlock, do_get_genesis_block}

abbrev pub Response : Type 0
Response = Result ApiError RosettaBlock

-- Where a goroutine is.
pub data Phase : Type 0 where
  -- before `RLock`
  starting : Phase
  -- between `RLock` and the read of the field
  reading : Phase
  -- with the block that was read, before `RUnlock` and after it
  has_read : GenesisBlock → Phase
  unlocked : GenesisBlock → Phase
  -- behind `Lock`, before the second check
  locked : Phase
  -- behind `Lock`, in `doGetGenesisBlock`, and with its answer
  fetching : Phase
  fetched : Response → Phase
  -- behind `Lock`, after the block is stored
  stored : RosettaBlock → Phase
  returned : Response → Phase

-- The mutex is free of writers, or held by one goroutine; `readers` hold it for reading.
pub record System : Type 0 where
  pub genesis_block : GenesisBlock
  pub readers : ℕ
  pub writer : Option ℕ
  pub goroutines : ℕ → Phase

abbrev pub set : ℕ → Phase → (ℕ → Phase) → ℕ → Phase
set t p goroutines u = if u == t then p else goroutines u

abbrev pub at : System → ℕ → Phase → System
at s t p = record s { goroutines = set t p s.goroutines }

abbrev pub unlocked_at : System → ℕ → Phase → System
unlocked_at s t p = record s { writer = none; goroutines = set t p s.goroutines }

-- `RLock` waits for the writer, `Lock` for everybody. A deferred `Unlock` comes with the return.
pub data Step : System → System → Type 0 where
  r_lock :
      (s : System) (t : ℕ)
      → s.goroutines t ≡ starting
      → s.writer ≡ none
      → Step s (record s { readers = s.readers + 1; goroutines = set t reading s.goroutines })
  read :
      (s : System) (t : ℕ) → s.goroutines t ≡ reading → Step s (at s t (has_read s.genesis_block))
  r_unlock :
      (s : System) (t : ℕ) (block : GenesisBlock)
      → s.goroutines t ≡ has_read block
      → Step s
          (record s { readers = s.readers - 1; goroutines = set t (unlocked block) s.goroutines })
  return_read :
      (s : System) (t : ℕ) (block : RosettaBlock)
      → s.goroutines t ≡ unlocked (some block)
      → Step s (at s t (returned (ok block)))
  lock :
      (s : System) (t : ℕ)
      → s.goroutines t ≡ unlocked none
      → s.writer ≡ none
      → s.readers ≡ 0
      → Step s (record s { writer = some t; goroutines = set t locked s.goroutines })
  return_found :
      (s : System) (t : ℕ) (block : RosettaBlock)
      → s.goroutines t ≡ locked
      → s.genesis_block ≡ some block
      → Step s (unlocked_at s t (returned (ok block)))
  miss :
      (s : System) (t : ℕ)
      → s.goroutines t ≡ locked
      → s.genesis_block ≡ none
      → Step s (at s t fetching)
  -- `provider` as it answers at this moment
  fetch :
      (s : System) (t : ℕ) (provider : NetworkProvider)
      → s.goroutines t ≡ fetching
      → Step s (at s t (fetched (do_get_genesis_block provider)))
  return_error :
      (s : System) (t : ℕ) (e : ApiError)
      → s.goroutines t ≡ fetched (err e)
      → Step s (unlocked_at s t (returned (err e)))
  store :
      (s : System) (t : ℕ) (block : RosettaBlock)
      → s.goroutines t ≡ fetched (ok block)
      → Step s
          (record s { genesis_block = some block; goroutines = set t (stored block) s.goroutines })
  return_stored :
      (s : System) (t : ℕ) (block : RosettaBlock)
      → s.goroutines t ≡ stored block
      → Step s (unlocked_at s t (returned (ok block)))

-- A new service: no block, a free mutex, and any number of requests to come.
abbrev pub new_system : System
new_system = record { genesis_block = none; readers = 0; writer = none; goroutines = λ t. starting }

pub data Reach (s : System) : System → Type 0 where
  here : Reach s s
  next : {t u : System} → Reach s t → Step t u → Reach s u
