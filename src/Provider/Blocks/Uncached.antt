-- ===== src/Provider/Blocks/Uncached.antt =====
-- What the provider promises about blocks: each call asks the observer for all that it needs.
use rosetta_images.Base.{ℕ, List, Bytes, Result, err, ◌>>=◌, if◌then◌else◌, ltb}
use rosetta_images.Failure.{Failure, cannot_get_block, is_offline}
use rosetta_images.Api.{ApiTransaction, Block, Libraries}
use rosetta_images.Provider.Observer.{NetworkProvider, ObserverFacade, ProviderLibraries}
use rosetta_images.Provider.Blocks.{
  do_get_block_by_hash, fetch_block_by_nonce, get_latest_block_nonce, nonce_after, nonce_before,
  or_out_of_fuel,
}
use rosetta_images.Provider.Scheduled.{do_simplify_block_with_scheduled_transactions}

module _ ⦃lib : Libraries⦄ ⦃libs : ProviderLibraries⦄
    (order : List ApiTransaction → List ApiTransaction) (fuel : ℕ) (provider : NetworkProvider)
    (observer : ObserverFacade) where
  -- A block with the transactions whose effects it shows, from its two neighbours.
  unfoldable pub simplified_block : Block → Result Failure Block
  simplified_block block = do
    previous_block ← fetch_block_by_nonce provider observer (nonce_before block.nonce)
    next_block ← fetch_block_by_nonce provider observer (nonce_after block.nonce)
    or_out_of_fuel
        (do_simplify_block_with_scheduled_transactions order fuel previous_block block next_block)

  unfoldable pub block_by_nonce : ℕ → Result Failure Block
  block_by_nonce nonce =
      if provider.is_offline
      then err is_offline
      else get_latest_block_nonce provider observer >>= λ latest_nonce.
          if ltb latest_nonce nonce
          then err cannot_get_block
          else fetch_block_by_nonce provider observer nonce >>= simplified_block

  unfoldable pub block_by_hash : Bytes → Result Failure Block
  block_by_hash hash =
      if provider.is_offline
      then err is_offline
      else do_get_block_by_hash provider observer hash >>= simplified_block
