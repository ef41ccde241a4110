-- ===== src/Server/Factory.antt =====
-- server/factory/provider.go and server/factory/components/observerFacade.go: how a provider is
-- made, with the libraries that it calls.
use rosetta_images.Base.{ℕ, Bool, true, false, List, [], ◌∷◌, Bytes, codes, Result, ok, ◌>>=◌}
use rosetta_images.Failure.{Failure}
use rosetta_images.Rosetta.{Currency}
use rosetta_images.Resources.{NetworkConfig}
use rosetta_images.Api.{Block, PreparedTx}
use rosetta_images.Provider.Observer.{
  ApiResponse, BlockQueryOptions, NetworkProvider, ObserverFacade, Payload, PooledTransaction,
  ProviderLibraries, Resource,
}
use rosetta_images.Provider.Network.{ArgsNewNetworkProvider, new_network_provider}

-- `process.Processor`, `facade.TransactionProcessor` and `facade.BlockProcessor` of
-- mx-chain-proxy-go, as far as the provider calls them.
pub record Processor : Type 0 where
  pub call_get_rest_end_point :
      (r : Resource) → Bytes → Bytes → Result Bytes (ApiResponse (Payload r))
  pub compute_id : Bytes → ℕ

pub record TransactionProcessor : Type 0 where
  pub send_transaction : PreparedTx → Result Bytes Bytes
  pub compute_transaction_hash : PreparedTx → Result Bytes Bytes
  pub get_transaction_by_hash_and_sender_address :
      Bytes → Bytes → Bool → Result Bytes PooledTransaction

pub record BlockProcessor : Type 0 where
  pub get_block_by_hash : ℕ → Bytes → BlockQueryOptions → Result Bytes (ApiResponse Block)
  pub get_block_by_nonce : ℕ → ℕ → BlockQueryOptions → Result Bytes (ApiResponse Block)

-- `data.NodeData` of mx-chain-proxy-go
pub record NodeData : Type 0 where
  pub shard_id : ℕ
  pub address : Bytes
  pub is_synced : Bool

-- The constructors of libraries that `CreateNetworkProvider` calls, and the functions that the
-- provider calls of what they make.
pub record FactoryLibraries : Type 1 where
  pub ShardCoordinator : Type 0
  pub PubKeyConverter : Type 0
  pub NodesProvider : Type 0
  pub Hasher : Type 0
  pub Marshalizer : Type 0
  pub new_multi_shard_coordinator : ℕ → ℕ → Result Failure ShardCoordinator
  pub number_of_shards : ShardCoordinator → ℕ
  pub new_bech32_pubkey_converter : ℕ → Bytes → Result Failure PubKeyConverter
  pub new_simple_nodes_provider : List NodeData → Bytes → ℕ → Result Failure NodesProvider
  pub new_disabled_nodes_provider : Bytes → NodesProvider
  pub new_base_processor :
      ℕ
      → ShardCoordinator
      → NodesProvider
      → NodesProvider
      → PubKeyConverter
      → Bool
      → Result Failure Processor
  pub new_hasher : Bytes → Result Failure Hasher
  pub new_marshalizer : Bytes → Result Failure Marshalizer
  pub create_transaction_processor :
      Processor
      → PubKeyConverter
      → Hasher
      → Marshalizer
      → Bool
      → Result Failure TransactionProcessor
  pub new_block_processor : Processor → Result Failure BlockProcessor
  pub provider_libraries : Hasher → Marshalizer → PubKeyConverter → ProviderLibraries

-- components/observerFacade.go: the three processors, embedded.
unfoldable pub observer_facade : Processor → TransactionProcessor → BlockProcessor → ObserverFacade
observer_facade processor transaction_processor block_processor = record {
  call_get_rest_end_point = processor.call_get_rest_end_point;
  compute_shard_id = processor.compute_id;
  send_transaction = transaction_processor.send_transaction;
  compute_transaction_hash = transaction_processor.compute_transaction_hash;
  get_transaction_by_hash_and_sender_address =
      transaction_processor.get_transaction_by_hash_and_sender_address;
  get_block_by_hash = block_processor.get_block_by_hash;
  get_block_by_nonce = block_processor.get_block_by_nonce;
}

pub record ArgsCreateNetworkProvider (Float : Type 0) : Type 0 where
  pub is_offline : Bool
  pub num_shards : ℕ
  pub observed_actual_shard : ℕ
  pub observed_projected_shard : ℕ
  pub observed_projected_shard_is_set : Bool
  pub observer_url : Bytes
  pub blockchain_name : Bytes
  pub network_id : Bytes
  pub network_name : Bytes
  pub gas_per_data_byte : ℕ
  pub gas_price_modifier : Float
  pub gas_limit_custom_transfer : ℕ
  pub min_gas_price : ℕ
  pub min_gas_limit : ℕ
  pub extra_gas_limit_guarded_tx : ℕ
  pub extra_gas_limit_relayed_tx_v3 : ℕ
  pub native_currency_symbol : Bytes
  pub custom_currencies : List Currency
  pub genesis_block_hash : Bytes
  pub genesis_timestamp : ℕ
  pub first_historical_epoch : ℕ
  pub num_historical_epochs : ℕ
  pub should_handle_contracts : Bool
  pub activation_epoch_sirius : ℕ
  pub activation_epoch_spica : ℕ

-- What the provider is made with, besides its arguments: fields of the Go struct that the model
-- passes on by themselves.
pub record Connection : Type 0 where
  pub observer : ObserverFacade
  pub libraries : ProviderLibraries

pub record CreatedProvider : Type 0 where
  pub provider : NetworkProvider
  pub connection : Connection

-- `price_of modifier price` is `uint64(float64(price) * modifier)`.
module _ {Float : Type 0} (factory : FactoryLibraries) (price_of : Float → ℕ → ℕ) where
  abbrev pub not_applicable : Bytes
  not_applicable = codes "not applicable"

  abbrev pub observers : ArgsCreateNetworkProvider Float → List NodeData
  observers args =
      record {
        shard_id = args.observed_actual_shard;
        address = args.observer_url;
        is_synced = true;
      }
      ∷ []

  unfoldable pub create_connection : ArgsCreateNetworkProvider Float → Result Failure Connection
  create_connection args = do
    shard_coordinator ←
        factory.new_multi_shard_coordinator args.num_shards args.observed_actual_shard
    pub_key_converter ← factory.new_bech32_pubkey_converter 32 (codes "erd")
    observers_provider ←
        factory.new_simple_nodes_provider (observers args) not_applicable
          (factory.number_of_shards shard_coordinator)
    base_processor ←
        factory.new_base_processor 60 shard_coordinator observers_provider
          (factory.new_disabled_nodes_provider not_applicable) pub_key_converter true
    hasher ← factory.new_hasher (codes "blake2b")
    marshalizer_for_hashing ← factory.new_marshalizer (codes "gogo protobuf")
    transaction_processor ←
        factory.create_transaction_processor base_processor pub_key_converter hasher
          marshalizer_for_hashing false
    block_processor ← factory.new_block_processor base_processor
    ok (record {
      observer = observer_facade base_processor transaction_processor block_processor;
      libraries = factory.provider_libraries hasher marshalizer_for_hashing pub_key_converter;
    })

  unfoldable pub network_config_of : ArgsCreateNetworkProvider Float → NetworkConfig
  network_config_of args = record {
    blockchain_name = args.blockchain_name;
    network_id = args.network_id;
    network_name = args.network_name;
    min_gas_price = args.min_gas_price;
    min_gas_limit = args.min_gas_limit;
    gas_per_data_byte = args.gas_per_data_byte;
    execution_gas_price = price_of args.gas_price_modifier;
    gas_limit_custom_transfer = args.gas_limit_custom_transfer;
    extra_gas_limit_guarded_tx = args.extra_gas_limit_guarded_tx;
    extra_gas_limit_relayed_tx_v3 = args.extra_gas_limit_relayed_tx_v3;
  }

  unfoldable pub provider_args : ArgsCreateNetworkProvider Float → ArgsNewNetworkProvider
  provider_args args = record {
    is_offline = args.is_offline;
    observed_actual_shard = args.observed_actual_shard;
    observed_projected_shard = args.observed_projected_shard;
    observed_projected_shard_is_set = args.observed_projected_shard_is_set;
    observer_url = args.observer_url;
    network_config = network_config_of args;
    native_currency_symbol = args.native_currency_symbol;
    custom_currencies = args.custom_currencies;
    genesis_block_hash = args.genesis_block_hash;
    genesis_timestamp = args.genesis_timestamp;
    first_historical_epoch = args.first_historical_epoch;
    num_historical_epochs = args.num_historical_epochs;
    should_handle_contracts = args.should_handle_contracts;
    activation_epoch_sirius = args.activation_epoch_sirius;
    activation_epoch_spica = args.activation_epoch_spica;
  }

  unfoldable pub create_network_provider :
      ArgsCreateNetworkProvider Float → Result Failure CreatedProvider
  create_network_provider args = do
    connection ← create_connection args
    provider ← new_network_provider (provider_args args)
    ok (record { provider = provider; connection = connection })
