-- ===== src/Provider/Blocks.antt =====
-- server/provider/networkProvider.go, and scheduledMiniblocks.go and nodeStatus.go where they ask
-- the observer: blocks by nonce and by hash, through the cache.
pub mod Uncached
pub mod Refinement
pub mod Calls
pub mod Final
pub mod Returns
use rosetta_images.Base.{
  ℕ, ◌+◌, ◌-◌, ◌%◌, ◌^◌, Bool, true, false, Option, none, some, List, [], map, Bytes, Result, ok,
  err, map_err, codes, if◌then◌else◌, ltb,
}
use rosetta_images.Base as Base
use rosetta_images.Failure.{
  Failure, cannot_get_block, cannot_get_block_by_hash, cannot_get_block_by_nonce, is_offline,
  out_of_fuel,
}
use rosetta_images.Api.{ApiTransaction, Block, Libraries, MiniBlock}
use rosetta_images.Provider.Observer.{
  ApiResponse, BlockQueryOptions, NetworkProvider, NodeStatus, ObserverFacade, ProviderLibraries,
  node_status,
}
use rosetta_images.Provider.Cache.{
  Action, BlocksCache, block_nonce_to_bytes, fails_if, returns, ◌>>=◌, ◌>>◌,
}
use rosetta_images.Provider.Requests.{
  convert_structured_api_err_to_flat_err, get_resource, payload_of,
}
use rosetta_images.Provider.NodeStatus.{get_latest_nonce_given_highest_final_nonce}
use rosetta_images.Provider.Scheduled.{do_simplify_block_with_scheduled_transactions}

abbrev pub copy_miniblock : MiniBlock → MiniBlock
copy_miniblock miniblock = record {
  block_type = miniblock.block_type;
  processing_type = miniblock.processing_type;
  transactions = miniblock.transactions;
  receipts = miniblock.receipts;
}

-- What is later changed is the copy; the block in the cache stays as it is.
unfoldable pub create_block_copy : Block → Block
create_block_copy block = record {
  nonce = block.nonce;
  round = block.round;
  epoch = block.epoch;
  shard = block.shard;
  hash = block.hash;
  prev_block_hash = block.prev_block_hash;
  status = block.status;
  timestamp = block.timestamp;
  mini_blocks = map copy_miniblock block.mini_blocks;
}

abbrev whole_block : BlockQueryOptions
whole_block = record { with_transactions = true; with_logs = true }

module _ ⦃libs : ProviderLibraries⦄ (provider : NetworkProvider) (observer : ObserverFacade) where
  -- The requests for one block, with the errors that the callers make of them.
  unfoldable pub fetch_block_by_nonce : ℕ → Result Failure Block
  fetch_block_by_nonce nonce = map_err (cannot_get_block_by_nonce nonce) (
      Base.◌>>=◌
        (map_err convert_structured_api_err_to_flat_err
          (observer.get_block_by_nonce provider.observed_actual_shard nonce whole_block))
        payload_of)

  unfoldable pub do_get_block_by_hash : Bytes → Result Failure Block
  do_get_block_by_hash hash = map_err (cannot_get_block_by_hash hash) (
      Base.◌>>=◌
        (map_err convert_structured_api_err_to_flat_err
          (observer.get_block_by_hash provider.observed_actual_shard hash whole_block))
        payload_of)

  unfoldable pub get_plain_node_status : Result Failure NodeStatus
  get_plain_node_status =
      if provider.is_offline
      then err is_offline
      else get_resource provider observer node_status (codes "/node/status")

  unfoldable pub get_latest_block_nonce : Result Failure ℕ
  get_latest_block_nonce = Base.◌>>=◌ get_plain_node_status (λ (status : NodeStatus).
      get_latest_nonce_given_highest_final_nonce status.highest_final_nonce)

module _ {C : Type 0} ⦃cache : BlocksCache C⦄ where
  unfoldable pub get_block_by_nonce_cached : ℕ → C → Option Block × C
  get_block_by_nonce_cached nonce c = cache.get (block_nonce_to_bytes nonce) c

  unfoldable pub cache_block_by_nonce : ℕ → Block → Action C (Unit {0})
  cache_block_by_nonce nonce block c = (ok tt, cache.put (block_nonce_to_bytes nonce) block c)

  -- The block found in the cache, or the one that is fetched and put there.
  abbrev pub found_or_fetched : ℕ → Result Failure Block → Option Block → Action C Block
  found_or_fetched nonce fetched (some block) = returns (ok (create_block_copy block))
  found_or_fetched nonce fetched none = do
    block ← returns fetched
    cache_block_by_nonce nonce block
    returns (ok (create_block_copy block))

module _ ⦃libs : ProviderLibraries⦄ {C : Type 0} ⦃cache : BlocksCache C⦄
    (provider : NetworkProvider) (observer : ObserverFacade) where
  unfoldable pub do_get_block_by_nonce : ℕ → Action C Block
  do_get_block_by_nonce nonce c =
      let (found, c') = get_block_by_nonce_cached nonce c in
      found_or_fetched nonce (fetch_block_by_nonce provider observer nonce) found c'

-- `block.Nonce - 1` and `block.Nonce + 1` on uint64
abbrev pub nonce_before : ℕ → ℕ
nonce_before nonce = (nonce + 2 ^ 64 - 1) % 2 ^ 64

abbrev pub nonce_after : ℕ → ℕ
nonce_after nonce = (nonce + 1) % 2 ^ 64

abbrev pub or_out_of_fuel : Option Block → Result Failure Block
or_out_of_fuel none = err out_of_fuel
or_out_of_fuel (some block) = ok block

module _ ⦃lib : Libraries⦄ ⦃libs : ProviderLibraries⦄
    (order : List ApiTransaction → List ApiTransaction) (fuel : ℕ) {C : Type 0}
    ⦃cache : BlocksCache C⦄ (provider : NetworkProvider) (observer : ObserverFacade) where
  unfoldable pub simplify_block_with_scheduled_transactions : Block → Action C Block
  simplify_block_with_scheduled_transactions block = do
    previous_block ← do_get_block_by_nonce provider observer (nonce_before block.nonce)
    next_block ← do_get_block_by_nonce provider observer (nonce_after block.nonce)
    returns (
        or_out_of_fuel (
          do_simplify_block_with_scheduled_transactions order fuel previous_block block next_block))

  unfoldable pub get_block_by_nonce : ℕ → Action C Block
  get_block_by_nonce nonce = do
    fails_if provider.is_offline is_offline
    latest_nonce ← returns (get_latest_block_nonce provider observer)
    fails_if (ltb latest_nonce nonce) cannot_get_block
    block ← do_get_block_by_nonce provider observer nonce
    simplify_block_with_scheduled_transactions block

  unfoldable pub get_block_by_hash : Bytes → Action C Block
  get_block_by_hash hash = do
    fails_if provider.is_offline is_offline
    block ← returns (do_get_block_by_hash provider observer hash)
    simplify_block_with_scheduled_transactions block
