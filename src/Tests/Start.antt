-- ===== src/Tests/Start.antt =====
-- A start of the server from flags, online and offline.
use rosetta_images.Base.{
  ◌≡◌, refl, ℕ, pos, Bool, true, false, List, [], ◌∷◌, Bytes, codes, Result, ok, insert, ◌/◌,
}
use rosetta_images.Failure.{Failure}
use rosetta_images.Rosetta.{NetworkIdentifier}
use rosetta_images.Provider.Network.{as_seen_by_services, new_network_provider}
use rosetta_images.Provider.Currencies.{index_by_symbol, new_currencies_provider}
use rosetta_images.Server.Controllers.{
  Controllers, account_service, block_service, construction_service, create_asserter,
  create_controllers, create_offline_controllers, create_online_controllers, mempool_service,
  network_service, offline_service,
}
use rosetta_images.Services.Offline.{new_offline_service}
use rosetta_images.Server.Flags.{
  ConfigLibraries, Context, decide_custom_currencies, get_parsed_cli_flags,
  load_config_of_custom_currencies,
}
use rosetta_images.Server.Factory.{
  CreatedProvider, FactoryLibraries, create_connection, create_network_provider, network_config_of,
  observer_facade, provider_args,
}
use rosetta_images.Server.Assembly.{HttpServer, args_of_flags, services_provider, start_rosetta}
use rosetta_images.Server.Assembly.Started.{FollowsFlags, start_rosetta_lem}
use rosetta_images.Server.Assembly.OfflineStart.{DoesWithoutObserver, offline_start}
use rosetta_images.Tests.Sample.{sample_libraries, token}
use rosetta_images.Tests.Observer.{observer_at, sample_provider_libraries}
use rosetta_images.Tests.Submission.{sample_json, sample_maps}

-- The modifier of the gas price is a divisor here.
abbrev flags : Bool → Context ℕ
flags offline = record {
  global_int = λ name. pos 8091;
  global_bool = λ name. offline;
  global_string = λ name. name;
  global_uint = λ name. 4294967297;
  global_uint64 = λ name. 50;
  global_int64 = λ name. pos 1596117600;
  global_float64 = λ name. 100;
  global_is_set = λ name. false;
}

abbrev factory : FactoryLibraries
factory = record {
  ShardCoordinator = ℕ;
  PubKeyConverter = Bytes;
  NodesProvider = Bytes;
  Hasher = Bytes;
  Marshalizer = Bytes;
  new_multi_shard_coordinator = λ shards self. ok shards;
  number_of_shards = λ shards. shards;
  new_bech32_pubkey_converter = λ length prefix. ok prefix;
  new_simple_nodes_provider = λ nodes path shards. ok path;
  new_disabled_nodes_provider = λ message. message;
  new_base_processor = λ timeout coordinator observers history converter balancing. ok (record {
    call_get_rest_end_point = (observer_at 8).call_get_rest_end_point;
    compute_id = λ pub_key. 1;
  });
  new_hasher = λ name. ok name;
  new_marshalizer = λ name. ok name;
  create_transaction_processor = λ processor converter hasher marshalizer with_tokens. ok (record {
    send_transaction = (observer_at 8).send_transaction;
    compute_transaction_hash = (observer_at 8).compute_transaction_hash;
    get_transaction_by_hash_and_sender_address =
        (observer_at 8).get_transaction_by_hash_and_sender_address;
  });
  new_block_processor = λ processor. ok (record {
    get_block_by_hash = (observer_at 8).get_block_by_hash;
    get_block_by_nonce = (observer_at 8).get_block_by_nonce;
  });
  provider_libraries = λ hasher marshalizer converter. sample_provider_libraries;
}

abbrev price_of : ℕ → ℕ → ℕ
price_of modifier price = price / modifier

-- Every file holds one currency.
abbrev config : ConfigLibraries
config = record {
  read_file = λ file. ok file;
  unmarshal_currencies = λ content. ok (record { symbol = token; decimals = 2 } ∷ []);
}

abbrev new_server : List Bytes → Bool → List NetworkIdentifier → Result Failure (List Bytes)
new_server op_types historical networks = ok op_types

abbrev created : Bool → CreatedProvider
created offline = record {
  provider = record {
    currencies_provider = record {
      native_currency = record { symbol = codes "native-currency"; decimals = 18 };
      custom_currencies_symbols = token ∷ [];
      custom_currencies = record { symbol = token; decimals = 2 } ∷ [];
      custom_currencies_by_symbol = (token, record { symbol = token; decimals = 2 }) ∷ [];
    };
    is_offline = offline;
    observed_actual_shard = 1;
    observed_projected_shard = 1;
    observed_projected_shard_is_set = false;
    observer_url = codes "observer-http-url";
    genesis_block_hash = codes "genesis-block";
    genesis_timestamp = 0;
    first_historical_epoch = 1;
    num_historical_epochs = 1;
    should_handle_contracts = offline;
    activation_epoch_sirius = 1;
    activation_epoch_spica = 1;
    network_config = record {
      blockchain_name = codes "blockchain";
      network_id = codes "network-id";
      network_name = codes "network-name";
      min_gas_price = 50;
      min_gas_limit = 50;
      gas_per_data_byte = 50;
      execution_gas_price = price_of 100;
      gas_limit_custom_transfer = 50;
      extra_gas_limit_guarded_tx = 50;
      extra_gas_limit_relayed_tx_v3 = 50;
    };
  };
  connection = record {
    observer = record (observer_at 8) { compute_shard_id = λ pub_key. 1 };
    libraries = sample_provider_libraries;
  };
}

abbrev server_of : Bool → Controllers → HttpServer
server_of offline controllers = record {
  port = pos 8091;
  created = created offline;
  controllers = controllers;
  pprof = offline;
}

abbrev online_controllers : Controllers
online_controllers =
    let p = services_provider factory price_of config new_server (λ txs. txs) 10 (created false) in
    record {
      network = network_service p;
      account = account_service p;
      block = block_service p;
      mempool = mempool_service p;
      construction = construction_service p;
    }

abbrev offline_controllers : Controllers
offline_controllers =
    let p = services_provider factory price_of config new_server (λ txs. txs) 10 (created true) in
    record {
      network = network_service p;
      account = offline_service new_offline_service;
      block = offline_service new_offline_service;
      mempool = offline_service new_offline_service;
      construction = construction_service p;
    }

online_run :
    start_rosetta factory price_of config new_server (λ txs. txs) 10 (flags false)
    ≡ ok (server_of false online_controllers)
unfolding start_rosetta get_parsed_cli_flags decide_custom_currencies create_network_provider
    load_config_of_custom_currencies args_of_flags create_connection new_network_provider
    provider_args network_config_of observer_facade new_currencies_provider index_by_symbol
    create_controllers create_online_controllers create_asserter services_provider
    as_seen_by_services insert
online_run = refl

offline_run :
    start_rosetta factory price_of config new_server (λ txs. txs) 10 (flags true)
    ≡ ok (server_of true offline_controllers)
unfolding start_rosetta get_parsed_cli_flags decide_custom_currencies create_network_provider
    load_config_of_custom_currencies args_of_flags create_connection new_network_provider
    provider_args network_config_of observer_facade new_currencies_provider index_by_symbol
    create_controllers create_offline_controllers create_asserter services_provider
    as_seen_by_services insert
offline_run = refl

start_rosetta_lem_example :
    FollowsFlags factory price_of config new_server
      (λ txs. txs)
      10
      (flags false)
      (server_of false online_controllers)
start_rosetta_lem_example =
    start_rosetta_lem factory price_of config new_server (λ txs. txs) 10 (flags false)
      (server_of false online_controllers) online_run

offline_start_example :
    DoesWithoutObserver sample_maps
      (services_provider factory price_of config new_server (λ txs. txs) 10 (created true))
      offline_controllers
offline_start_example =
    offline_start sample_maps factory price_of config new_server (λ txs. txs) 10 (flags true)
      (server_of true offline_controllers) offline_run refl
