-- ===== src/Provider/Status.antt =====
-- server/provider/nodeStatus.go and networkProvider.go: what the observer reports of itself.
pub mod Latest
use rosetta_images.Base.{
  ℕ, ℤ, pos, negsuc, Bool, false, List, Result, ok, err, map_err, codes, ◌>>=◌, ◌==◌, nat_eq,
  if◌then◌else◌,
}
use rosetta_images.Failure.{Failure, cannot_get_block_by_nonce, external, is_offline}
use rosetta_images.Api.{Block}
use rosetta_images.Resources.{AggregatedNodeStatus, BlockSummary, GenesisBalance}
use rosetta_images.Provider.Observer.{
  ApiResponse, BlockQueryOptions, NetworkProvider, NodeStatus, ObserverFacade, ProviderLibraries,
  epoch_start, genesis_balances,
}
use rosetta_images.Provider.Requests.{get_resource}
use rosetta_images.Provider.Blocks.{get_plain_node_status}
use rosetta_images.Provider.Accounts.{build_url_get_epoch_start_info}
use rosetta_images.Provider.NodeStatus as NodeStatus
use rosetta_images.Provider.NodeStatus.{
  get_latest_nonce_given_highest_final_nonce, parse_peers_counts,
}

abbrev without_transactions : BlockQueryOptions
without_transactions = record { with_transactions = false; with_logs = false }

abbrev pub summary_of : ApiResponse Block → BlockSummary
summary_of response = record {
  nonce = response.payload.nonce;
  hash = response.payload.hash;
  previous_block_hash = response.payload.prev_block_hash;
  timestamp = response.payload.timestamp;
}

abbrev pub is_zero : ℤ → Bool
is_zero (pos n) = n == 0
is_zero (negsuc n) = false

module _ ⦃libs : ProviderLibraries⦄ (provider : NetworkProvider) (observer : ObserverFacade) where
  -- The error that the body of the answer may report is not looked at.
  unfoldable pub get_block_summary_by_nonce : ℕ → Result Failure BlockSummary
  get_block_summary_by_nonce nonce =
      if provider.is_offline
      then err is_offline
      else map_err (λ e. cannot_get_block_by_nonce nonce (external e))
          (observer.get_block_by_nonce provider.observed_actual_shard nonce without_transactions)
        >>= λ response. ok (summary_of response)

  unfoldable pub get_genesis_balances : Result Failure (List GenesisBalance)
  get_genesis_balances =
      if provider.is_offline
      then err is_offline
      else get_resource provider observer genesis_balances (codes "/network/genesis-balances")

  unfoldable pub get_oldest_eligible_epoch : ℕ → ℕ
  get_oldest_eligible_epoch =
      NodeStatus.get_oldest_eligible_epoch provider.first_historical_epoch
        provider.num_historical_epochs

  unfoldable pub get_epoch_start_info : ℕ → Result Failure ℕ
  get_epoch_start_info epoch =
      if provider.is_offline
      then err is_offline
      else get_resource provider observer epoch_start (build_url_get_epoch_start_info epoch)

  unfoldable pub get_oldest_nonce_with_historical_state_given_node_status :
      NodeStatus → Result Failure ℕ
  get_oldest_nonce_with_historical_state_given_node_status status =
      get_epoch_start_info (get_oldest_eligible_epoch status.current_epoch)

  unfoldable pub get_node_status : Result Failure AggregatedNodeStatus
  get_node_status = do
    plain_node_status ← get_plain_node_status provider observer
    latest_nonce ← get_latest_nonce_given_highest_final_nonce plain_node_status.highest_final_nonce
    latest_block_summary ← get_block_summary_by_nonce latest_nonce
    oldest_nonce ← get_oldest_nonce_with_historical_state_given_node_status plain_node_status
    oldest_block ← get_block_summary_by_nonce oldest_nonce
    ok (record {
      version = plain_node_status.version;
      connected_peers_counts = parse_peers_counts plain_node_status.connected_peers_counts;
      observer_public_key = plain_node_status.observer_public_key;
      synced = is_zero plain_node_status.is_syncing;
      latest_block = latest_block_summary;
      oldest_block_with_historical_state = oldest_block;
    })
