-- ===== src/Provider/Blocks/Calls.antt =====
-- What the services can observe over any sequence of calls, while the chain of the observer grows.
use rosetta_images.Base.{ℕ, ◌^◌, ◌<◌, ◌≡◌, refl, List, [], ◌∷◌, Bytes, Result, ok, sym, ◌∙◌}
use mathlib.Core.Option.{none-ne-some}
use rosetta_images.Failure.{Failure}
use rosetta_images.Api.{ApiTransaction, Block, Libraries}
use rosetta_images.Provider.Observer.{NetworkProvider, ObserverFacade, ProviderLibraries}
use rosetta_images.Provider.Cache.{Action, BlocksCache}
use rosetta_images.Provider.Blocks.{fetch_block_by_nonce, get_block_by_hash, get_block_by_nonce}
use rosetta_images.Provider.Blocks.Uncached.{block_by_hash, block_by_nonce}
use rosetta_images.Provider.Blocks.Refinement.{
  IsHonest, Refines, get_block_by_hash-Refines, get_block_by_nonce-Refines,
}

pub data Request : Type 0 where
  by_nonce : ℕ → Request
  by_hash : Bytes → Request

-- A nonce of a request is a uint64.
abbrev pub IsUint64 : Request → Type 0
IsUint64 (by_nonce nonce) = nonce < 2 ^ 64
IsUint64 (by_hash hash) = Unit

-- A request, and the observer as it is when the request comes.
abbrev pub Call : Type 0
Call = ObserverFacade × Request

-- A block that was answered for a nonce is answered from then on.
abbrev pub Keeps :
    ⦃libs : ProviderLibraries⦄ → NetworkProvider → ObserverFacade → ObserverFacade → Type 0
Keeps provider before after =
    (nonce : ℕ) (block : Block)
    → fetch_block_by_nonce provider before nonce ≡ ok block
    → fetch_block_by_nonce provider after nonce ≡ ok block

abbrev pub IsHistory :
    ⦃libs : ProviderLibraries⦄ → NetworkProvider → ObserverFacade → List Call → Type 0
IsHistory provider observer [] = Unit
IsHistory provider observer ((after, request) ∷ calls) =
    Keeps provider observer after × IsUint64 request × IsHistory provider after calls

module _ ⦃lib : Libraries⦄ ⦃libs : ProviderLibraries⦄
    (order : List ApiTransaction → List ApiTransaction) (fuel : ℕ)
    (provider : NetworkProvider) where
  abbrev pub answer : {C : Type 0} ⦃cache : BlocksCache C⦄ → Call → Action C Block
  answer (observer, by_nonce nonce) = get_block_by_nonce order fuel provider observer nonce
  answer (observer, by_hash hash) = get_block_by_hash order fuel provider observer hash

  abbrev pub uncached_answer : Call → Result Failure Block
  uncached_answer (observer, by_nonce nonce) = block_by_nonce order fuel provider observer nonce
  uncached_answer (observer, by_hash hash) = block_by_hash order fuel provider observer hash

  unfoldable pub run :
      {C : Type 0} ⦃cache : BlocksCache C⦄ → List Call → C → List (Result Failure Block) × C
  run [] c = ([], c)
  run (call ∷ calls) c =
      let (r, c') = answer call c in let (rs, last) = run calls c' in (r ∷ rs, last)

  unfoldable pub replay : List Call → List (Result Failure Block)
  replay [] = []
  replay (call ∷ calls) = uncached_answer call ∷ replay calls

  module _ {C : Type 0} ⦃cache : BlocksCache C⦄ where
    answer-Refines :
        (observer : ObserverFacade) (request : Request)
        → IsUint64 request
        → Refines {C = C} provider observer
            (answer (observer, request))
            (uncached_answer (observer, request))
    answer-Refines observer (by_nonce nonce) small =
        get_block_by_nonce-Refines order fuel provider observer nonce small
    answer-Refines observer (by_hash hash) _ =
        get_block_by_hash-Refines order fuel provider observer hash

    run-from :
        (calls : List Call) (observer : ObserverFacade) (c : C)
        → IsHonest provider observer c
        → IsHistory provider observer calls
        → (run calls c).0 ≡ replay calls
    unfolding run replay
    run-from [] observer c honest history = refl
    run-from ((after, request) ∷ calls) observer c honest (keeps, small, history) =
        let (same, honest') =
          answer-Refines after request small c (λ n b hn e. keeps n b (honest n b hn e)) in
        rw (same, run-from calls after (answer (after, request) c).1 honest' history) refl

  -- Let the blocks that the observer answers for a nonce stay what they are, in the course of any
  -- calls by uint64 nonces and by hashes. Then the provider, which starts with an empty cache and
  -- whose cache may forget blocks at any time, answers each call as if it asked the observer of
  -- that moment for every block.
  pub run_refines :
      (C : Type 0) ⦃cache : BlocksCache C⦄ (observer : ObserverFacade) (calls : List Call)
      → IsHistory provider observer calls
      → (run calls cache.empty).0 ≡ replay calls
  run_refines C ⦃cache⦄ observer calls history =
      run-from calls observer cache.empty
        (λ n b hn e. elim (none-ne-some b (sym (cache.empty_contents _) ∙ e)) [ ]) history
