-- ===== src/Tests/Status.antt =====
-- The status of the node, and the assembly of the services.
use rosetta_images.Base.{◌≡◌, refl, true, [], ◌∷◌, codes, ok, Dict}
use rosetta_images.Resources.{AggregatedNodeStatus}
use rosetta_images.Api.{Block}
use rosetta_images.Provider.NodeStatus as NodeStatus
use rosetta_images.Provider.NodeStatus.{get_latest_nonce_given_highest_final_nonce}
use rosetta_images.Provider.Requests.{get_resource, get_resource_with_err_conversion}
use rosetta_images.Provider.Blocks.{get_plain_node_status}
use rosetta_images.Provider.Status.{
  get_block_summary_by_nonce, get_epoch_start_info, get_node_status,
  get_oldest_nonce_with_historical_state_given_node_status,
}
use rosetta_images.Provider.Status.Latest.{AgreesWithBlocks, get_node_status_lem}
use rosetta_images.Tests.Sample.{sample_libraries}
use rosetta_images.Tests.Observer.{last_three, observer_at, sample, sample_provider_libraries}

abbrev status : AggregatedNodeStatus
status = record {
  version = codes "v1";
  connected_peers_counts = [];
  observer_public_key = codes "key";
  synced = true;
  latest_block = record { nonce = 5; hash = 5 ∷ []; previous_block_hash = 4 ∷ []; timestamp = 5 };
  oldest_block_with_historical_state = record {
    nonce = 1;
    hash = 1 ∷ [];
    previous_block_hash = 0 ∷ [];
    timestamp = 1;
  };
}

status_run : get_node_status sample (observer_at 8) ≡ ok status
unfolding get_node_status get_plain_node_status get_resource get_resource_with_err_conversion
    get_latest_nonce_given_highest_final_nonce get_block_summary_by_nonce
    get_oldest_nonce_with_historical_state_given_node_status get_epoch_start_info
    NodeStatus.parse_peers_counts
status_run = refl

get_node_status_lem_example :
    AgreesWithBlocks (λ txs. txs) 10 sample (observer_at 8) (Dict Block) last_three.empty 6 status
get_node_status_lem_example =
    get_node_status_lem (λ txs. txs) 10 sample (observer_at 8) (Dict Block) last_three.empty 6
      status refl status_run
