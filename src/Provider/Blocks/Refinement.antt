-- ===== src/Provider/Blocks/Refinement.antt =====
-- The blocks that the provider answers with its cache are those that it would answer without.
use rosetta_images.Base.{
  ℕ, ◌^◌, ◌<◌, ◌≡◌, refl, ap, sym, subst, ◌∙◌, ◌⊎◌, inl, inr, List, [], ◌∷◌, map, Option, none,
  some, Bytes, Result, ok, err, Bool, true, false, if◌then◌else◌, ltb, arith,
}
use rosetta_images.Base as Base
use rosetta_images.Failure.{Failure, cannot_get_block, is_offline}
use rosetta_images.Api.{ApiTransaction, Block, Libraries, MiniBlock}
use rosetta_images.Provider.Observer.{NetworkProvider, ObserverFacade, ProviderLibraries}
use rosetta_images.Provider.Cache.{
  Action, BlocksCache, block_nonce_to_bytes, block_nonce_to_bytes_lem, fails_if, returns, ◌>>=◌,
}
use rosetta_images.Provider.Blocks.{
  cache_block_by_nonce, copy_miniblock, create_block_copy, do_get_block_by_nonce,
  do_get_block_by_hash, get_latest_block_nonce, fetch_block_by_nonce, found_or_fetched,
  get_block_by_hash, get_block_by_nonce, get_block_by_nonce_cached, nonce_after, nonce_before,
  simplify_block_with_scheduled_transactions,
}
use rosetta_images.Provider.Blocks.Uncached.{block_by_hash, block_by_nonce, simplified_block}

copies : (miniblocks : List MiniBlock) → map copy_miniblock miniblocks ≡ miniblocks
copies [] = refl
copies (m ∷ miniblocks) = ap (λ ms. m ∷ ms) (copies miniblocks)

pub create_block_copy_lem : (block : Block) → create_block_copy block ≡ block
unfolding create_block_copy
create_block_copy_lem block = rw (copies block.mini_blocks) refl

module _ ⦃libs : ProviderLibraries⦄ {C : Type 0} ⦃cache : BlocksCache C⦄
    (provider : NetworkProvider) where
  -- Every block in the cache is what the observer answers for the nonce.
  abbrev pub IsHonest : ObserverFacade → C → Type 0
  IsHonest observer c =
      (nonce : ℕ) (block : Block)
      → nonce < 2 ^ 64
      → cache.contents c (block_nonce_to_bytes nonce) ≡ some block
      → fetch_block_by_nonce provider observer nonce ≡ ok block

  -- The method answers `r` from every honest cache and leaves it honest.
  abbrev pub Refines : {A : Type 0} → ObserverFacade → Action C A → Result Failure A → Type 0
  Refines observer m r = (c : C) → IsHonest observer c → ((m c).0 ≡ r) × IsHonest observer (m c).1

  returns-Refines :
      {A : Type 0} (observer : ObserverFacade) (r : Result Failure A)
      → Refines observer (returns r) r
  returns-Refines observer r c h = (refl, h)

  module _ {A B : Type 0} (observer : ObserverFacade) where
    bound :
        (f : A → Action C B) (g : A → Result Failure B) (x : Result Failure A × C)
        → IsHonest observer x.1
        → ((a : A) → Refines observer (f a) (g a))
        → ((◌>>=◌ (λ (_ : C). x) f x.1).0 ≡ Base.◌>>=◌ x.0 g)
          × IsHonest observer (◌>>=◌ (λ (_ : C). x) f x.1).1
    bound f g (ok a, c) h hf = hf a c h
    bound f g (err e, c) h hf = (refl, h)

    >>=-Refines :
        (m : Action C A) (f : A → Action C B) (r : Result Failure A) (g : A → Result Failure B)
        → Refines observer m r
        → ((a : A) → Refines observer (f a) (g a))
        → Refines observer (m >>= f) (Base.◌>>=◌ r g)
    >>=-Refines m f r g hm hf c h =
        let (e, h') = hm c h in
        subst (λ s. ((◌>>=◌ m f c).0 ≡ Base.◌>>=◌ s g) × IsHonest observer (◌>>=◌ m f c).1) e
          (bound f g (m c) h' hf)

  module _ (observer : ObserverFacade) (nonce : ℕ) (small : nonce < 2 ^ 64) where
    served :
        (found : Option Block) (c : C)
        → ((block : Block)
            → found ≡ some block
            → fetch_block_by_nonce provider observer nonce ≡ ok block)
        → IsHonest observer c
        → ((found_or_fetched nonce (fetch_block_by_nonce provider observer nonce) found c).0
            ≡ fetch_block_by_nonce provider observer nonce)
          × IsHonest observer
              (found_or_fetched nonce (fetch_block_by_nonce provider observer nonce) found c).1
    served (some block) c k h = (rw (create_block_copy_lem block, k block refl) refl, h)
    served none c k h = fetched (fetch_block_by_nonce provider observer nonce) refl
      where
        kept :
            (block : Block)
            → fetch_block_by_nonce provider observer nonce ≡ ok block
            → IsHonest observer (cache.put (block_nonce_to_bytes nonce) block c)
        kept block e n b hn hb =
            elim (cache.put_contents (block_nonce_to_bytes nonce) (block_nonce_to_bytes n) block c
              hb) [
                | inl (same_key, same_block) ↦
                    rw (sym (block_nonce_to_bytes_lem nonce n small hn same_key), sym same_block) e
                | inr before ↦ h n b hn before
              ]

        fetched :
            (r : Result Failure Block)
            → fetch_block_by_nonce provider observer nonce ≡ r
            → ((found_or_fetched nonce r none c).0 ≡ r)
              × IsHonest observer (found_or_fetched nonce r none c).1
        fetched (ok block) e =
            unfold cache_block_by_nonce in (ap ok (create_block_copy_lem block), kept block e)
        fetched (err e') e = (refl, h)

    do_get_block_by_nonce-Refines :
        Refines observer
          (do_get_block_by_nonce provider observer nonce)
          (fetch_block_by_nonce provider observer nonce)
    unfolding do_get_block_by_nonce get_block_by_nonce_cached
    do_get_block_by_nonce-Refines c h =
        let key = block_nonce_to_bytes nonce in
        served (cache.get key c).0 (cache.get key c).1
          (λ block e. h nonce block small (sym (cache.get_found key c) ∙ e))
          (λ n b hn e. h n b hn (cache.get_contents key (block_nonce_to_bytes n) c e))

  fails_if-Refines :
      {A : Type 0} (observer : ObserverFacade) (b : Bool) (e : Failure) (k : Action C A)
      (r : Result Failure A)
      → Refines observer k r
      → Refines observer (fails_if b e >>= (λ _. k)) (if b then err e else r)
  fails_if-Refines observer true e k r h c hc = (refl, hc)
  fails_if-Refines observer false e k r h c hc = h c hc

pub nonce_before-bound : (nonce : ℕ) → nonce_before nonce < 2 ^ 64
nonce_before-bound nonce = omega arith

pub nonce_after-bound : (nonce : ℕ) → nonce_after nonce < 2 ^ 64
nonce_after-bound nonce = omega arith

module _ ⦃lib : Libraries⦄ ⦃libs : ProviderLibraries⦄ {C : Type 0} ⦃cache : BlocksCache C⦄
    (order : List ApiTransaction → List ApiTransaction) (fuel : ℕ) (provider : NetworkProvider)
    (observer : ObserverFacade) where
  simplify-Refines :
      (block : Block)
      → Refines {C = C} provider observer
          (simplify_block_with_scheduled_transactions order fuel provider observer block)
          (simplified_block order fuel provider observer block)
  unfolding simplify_block_with_scheduled_transactions simplified_block
  simplify-Refines block =
      >>=-Refines provider observer _ _ _ _
        (do_get_block_by_nonce-Refines provider observer (nonce_before block.nonce)
          (nonce_before-bound block.nonce))
        (λ previous.
          >>=-Refines provider observer _ _ _ _
            (do_get_block_by_nonce-Refines provider observer (nonce_after block.nonce)
              (nonce_after-bound block.nonce))
            (λ next. returns-Refines provider observer _))

  pub get_block_by_nonce-Refines :
      (nonce : ℕ)
      → nonce < 2 ^ 64
      → Refines {C = C} provider observer
          (get_block_by_nonce order fuel provider observer nonce)
          (block_by_nonce order fuel provider observer nonce)
  unfolding get_block_by_nonce block_by_nonce
  get_block_by_nonce-Refines nonce small =
      fails_if-Refines provider observer provider.is_offline is_offline _ _ (
        >>=-Refines provider observer _ _ (get_latest_block_nonce provider observer) _
          (returns-Refines provider observer (get_latest_block_nonce provider observer))
          (λ latest. fails_if-Refines provider observer (ltb latest nonce) cannot_get_block _ _ (
            >>=-Refines provider observer _ _ _ _
              (do_get_block_by_nonce-Refines provider observer nonce small) simplify-Refines)))

  pub get_block_by_hash-Refines :
      (hash : Bytes)
      → Refines {C = C} provider observer
          (get_block_by_hash order fuel provider observer hash)
          (block_by_hash order fuel provider observer hash)
  unfolding get_block_by_hash block_by_hash
  get_block_by_hash-Refines hash =
      fails_if-Refines provider observer provider.is_offline is_offline _ _ (
        >>=-Refines provider observer _ _ (do_get_block_by_hash provider observer hash) _
          (returns-Refines provider observer (do_get_block_by_hash provider observer hash))
          simplify-Refines)
