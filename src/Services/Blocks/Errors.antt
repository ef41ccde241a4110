-- ===== src/Services/Blocks/Errors.antt =====
-- What /block answers when it does not answer a block.
use rosetta_images.Base.{
  ◌≡◌, subst, refl, sym, inl, inr, Option, none, some, Bytes, Result, ok, err, map_err, ℤ, Bool,
  true, false, ◌||◌, err-of_map_err, err-injective, Bool-cases, ◌>>=◌,
}
use rosetta_images.Failure.{Failure}
use rosetta_images.Api.{Libraries}
use rosetta_images.Rosetta.{ApiError, RosettaBlock}
use rosetta_images.Services.Interface.{NetworkProvider}
use rosetta_images.Services.Converters.{PartialBlockIdentifier, uint64}
use rosetta_images.Services.Errors.{
  err_must_query_by_index_or_by_hash, err_unable_to_get_block, err_unable_to_get_genesis_block,
  new_err, new_err_factory, new_err_with_original,
}
use rosetta_images.Services.Blocks.{
  GenesisBlock, by_index_or_hash, create_genesis_operations, do_get_block, do_get_genesis_block,
  convert_to_rosetta_block, get_block_by_hash, get_block_by_nonce, get_genesis_block,
  has_genesis_hash, has_genesis_index, store_if_ok,
}

-- Two fallible calls, whose errors are both wrapped.
module _ {B D : Type 0} (wrap : Failure → ApiError) (g : B → D) {e : ApiError} where
  wrapped :
      (s : Result Failure B)
      → Path (Result ApiError D) (map_err wrap s >>= (λ b. ok (g b))) (err e)
      → (f : Failure) × (s ≡ err f) × (e ≡ wrap f)
  wrapped (ok b) h = cc
  wrapped (err f) h = (f, refl, sym (err-injective {A = D} h))

  wrapped_twice :
      {A : Type 0} (r : Result Failure A) (k : A → Result Failure B)
      → Path
          (Result ApiError D)
          (map_err wrap r >>= (λ a. map_err wrap (k a) >>= (λ b. ok (g b))))
          (err e)
      → (f : Failure) × ((r >>= k) ≡ err f) × (e ≡ wrap f)
  wrapped_twice (ok a) k h = wrapped (k a) h
  wrapped_twice (err f) k h = (f, refl, sym (err-injective {A = D} h))

module _ ⦃lib : Libraries⦄ (provider : NetworkProvider) where
  abbrev pub is_genesis : PartialBlockIdentifier → Bool
  is_genesis request =
      has_genesis_index provider request.index || has_genesis_hash provider request.hash

  -- The error for a request, by what is asked for.
  pub data IsError (request : PartialBlockIdentifier) : ApiError → Type 0 where
    of_genesis :
        (f : Failure)
        → is_genesis request ≡ true
        → (provider.get_genesis_balances >>= create_genesis_operations provider) ≡ err f
        → IsError request (new_err_with_original new_err_factory err_unable_to_get_genesis_block f)
    of_index :
        (index : ℤ) (f : Failure)
        → is_genesis request ≡ false
        → request.index ≡ some index
        → (provider.get_block_by_nonce (uint64 index) >>= convert_to_rosetta_block provider) ≡ err f
        → IsError request (new_err_with_original new_err_factory err_unable_to_get_block f)
    of_hash :
        (hash : Bytes) (f : Failure)
        → is_genesis request ≡ false
        → request.index ≡ none
        → request.hash ≡ some hash
        → (provider.get_block_by_hash hash >>= convert_to_rosetta_block provider) ≡ err f
        → IsError request (new_err_with_original new_err_factory err_unable_to_get_block f)
    of_nothing :
        request.index ≡ none
        → request.hash ≡ none
        → IsError request (new_err new_err_factory err_must_query_by_index_or_by_hash)

  genesis_error :
      (e : ApiError)
      → do_get_genesis_block provider ≡ err e
      → (f : Failure) × ((provider.get_genesis_balances >>= create_genesis_operations provider)
          ≡ err f)
        × (e ≡ new_err_with_original new_err_factory err_unable_to_get_genesis_block f)
  unfolding do_get_genesis_block
  genesis_error e h =
      wrapped_twice (new_err_with_original new_err_factory err_unable_to_get_genesis_block) _
        provider.get_genesis_balances (create_genesis_operations provider) h

  stored_error :
      (r : Result ApiError RosettaBlock) {e : ApiError} → (store_if_ok r).0 ≡ err e → r ≡ err e
  stored_error (ok block) h = h
  stored_error (err e') h = h

  kept_error :
      (g : GenesisBlock) (e : ApiError)
      → (get_genesis_block provider g).0 ≡ err e
      → do_get_genesis_block provider ≡ err e
  unfolding get_genesis_block
  kept_error none e h = stored_error (do_get_genesis_block provider) h
  kept_error (some block) e h = cc

  block-IsError :
      (request : PartialBlockIdentifier) (index : Option ℤ) (hash : Option Bytes) (e : ApiError)
      → request.index ≡ index
      → request.hash ≡ hash
      → is_genesis request ≡ false
      → by_index_or_hash provider index hash ≡ err e
      → IsError request e
  unfolding get_block_by_nonce get_block_by_hash
  block-IsError request (some index) hash e ei eh other h =
      let (f, original, same) = err-of_map_err _ _ h in
      subst (IsError request) (sym same) (of_index index f other ei original)
  block-IsError request none (some hash) e ei eh other h =
      let (f, original, same) = err-of_map_err _ _ h in
      subst (IsError request) (sym same) (of_hash hash f other ei eh original)
  block-IsError request none none e ei eh other h =
      subst (IsError request) (err-injective {A = RosettaBlock} h) (of_nothing ei eh)

  -- A request that gets an error: for the genesis block, the error carries the one that getting the
  -- genesis balances or making operations of them gave; for another block, by index (which decides,
  -- where both are given) or by hash, it carries the one that the provider gave for that nonce or
  -- hash, or the transformation of its block; without index and hash, it says that one of them is
  -- needed.
  pub do_get_block-err :
      (request : PartialBlockIdentifier) (g : GenesisBlock) (e : ApiError)
      → (do_get_block provider request g).0 ≡ err e
      → IsError request e
  unfolding do_get_block
  do_get_block-err request g e h = elim (Bool-cases (is_genesis request)) [
    | inl genesis ↦
        let (f, original, same) = genesis_error e (kept_error g e (rw genesis at h)) in
        subst (IsError request) (sym same) (of_genesis f genesis original)
    | inr other ↦ block-IsError request request.index request.hash e refl refl other (rw other at h)
  ]
