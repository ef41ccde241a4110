-- ===== src/Services/Network.antt =====
-- server/services/networkService.go: the endpoints /network/list, /network/status and
-- /network/options, with the versions of version/constants.go.
use rosetta_images.Base.{
  true, false, List, [], ◌∷◌, Bytes, Result, ok, err, map_err, codes, ◌>>=◌, if◌then◌else◌,
}
use rosetta_images.Rosetta.{
  ApiError, NetworkIdentifier, NetworkOptionsResponse, NetworkStatusResponse, OperationStatus,
}
use rosetta_images.Resources.{AggregatedNodeStatus}
use rosetta_images.Services.Interface.{NetworkProvider}
use rosetta_images.Services.Constants.{node_version_for_offline_rosetta}
use rosetta_images.Services.OpTypes.{status_failure, status_success, supported_operation_types}
use rosetta_images.Services.Errors.{
  err_offline_mode, err_unable_to_get_node_status, get_possible_errors, new_err, new_err_factory,
  new_err_with_original,
}
use rosetta_images.Services.Converters.{block_summary_to_identifier, timestamp_in_milliseconds}
use rosetta_images.Services.Extension.{get_genesis_block_identifier}

-- server/services/operations.go
abbrev pub supported_operation_statuses : List OperationStatus
supported_operation_statuses =
    record { status = status_success; successful = true }
    ∷ record { status = status_failure; successful = false }
    ∷ []

abbrev pub rosetta_version : Bytes
rosetta_version = codes "v1.4.12"

abbrev pub rosetta_middleware_version : Bytes
rosetta_middleware_version = codes "v0.6.1"

module _ (provider : NetworkProvider) where
  unfoldable pub network_list : List NetworkIdentifier
  network_list =
      record {
        blockchain = provider.get_blockchain_name;
        network = provider.get_network_config.network_name;
      }
      ∷ []

  abbrev pub status_response : AggregatedNodeStatus → NetworkStatusResponse
  status_response node_status = record {
    current_block_identifier = block_summary_to_identifier node_status.latest_block;
    current_block_timestamp = timestamp_in_milliseconds node_status.latest_block.timestamp;
    genesis_block_identifier = get_genesis_block_identifier provider;
    oldest_block_identifier =
        block_summary_to_identifier node_status.oldest_block_with_historical_state;
    synced = node_status.synced;
    peers =
        record {
          peer_id = node_status.observer_public_key;
          version = node_status.version;
          connections = node_status.connected_peers_counts;
        }
        ∷ [];
  }

  unfoldable pub network_status : Result ApiError NetworkStatusResponse
  network_status =
      if provider.is_offline
      then err (new_err new_err_factory err_offline_mode)
      else map_err (new_err_with_original new_err_factory err_unable_to_get_node_status)
          provider.get_node_status
        >>= λ node_status. ok (status_response node_status)

  unfoldable pub get_node_version : Result ApiError Bytes
  get_node_version =
      if provider.is_offline
      then ok node_version_for_offline_rosetta
      else map_err (new_err_with_original new_err_factory err_unable_to_get_node_status)
          provider.get_node_status
        >>= λ (node_status : AggregatedNodeStatus). ok node_status.version

  unfoldable pub network_options : Result ApiError NetworkOptionsResponse
  network_options = do
    node_version ← get_node_version
    ok (record {
      version = record {
        rosetta_version = rosetta_version;
        middleware_version = rosetta_middleware_version;
        node_version = node_version;
      };
      allow = record {
        operation_statuses = supported_operation_statuses;
        operation_types = supported_operation_types;
        errors = get_possible_errors new_err_factory;
        historical_balance_lookup = true;
      };
    })
