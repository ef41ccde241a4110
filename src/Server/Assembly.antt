-- ===== src/Server/Assembly.antt =====
-- cmd/rosetta/main.go: how the server is put together from the flags.
pub mod Started
pub mod OfflineStart
use rosetta_images.Base.{ℕ, ℤ, Bool, List, Bytes, Result, ok, ◌>>=◌}
use rosetta_images.Failure.{Failure}
use rosetta_images.Rosetta.{Currency, NetworkIdentifier}
use rosetta_images.Api.{ApiTransaction, Libraries}
use rosetta_images.Provider.Network.{as_seen_by_services}
use rosetta_images.Services.Interface as Services
use rosetta_images.Server.Controllers.{Controllers, create_controllers}
use rosetta_images.Server.Flags.{
  ConfigLibraries, Context, ParsedCliFlags, decide_custom_currencies, get_parsed_cli_flags,
}
use rosetta_images.Server.Factory.{
  ArgsCreateNetworkProvider, CreatedProvider, FactoryLibraries, create_network_provider,
}

-- The literal leaves out the field GenesisTimestamp, which has Go's zero value then.
unfoldable pub args_of_flags :
    {Float : Type 0} → ParsedCliFlags Float → List Currency → ArgsCreateNetworkProvider Float
args_of_flags flags custom_currencies = record {
  is_offline = flags.offline;
  num_shards = flags.num_shards;
  observed_actual_shard = flags.observer_actual_shard;
  observed_projected_shard = flags.observer_projected_shard;
  observed_projected_shard_is_set = flags.observer_projected_shard_is_set;
  observer_url = flags.observer_http_url;
  blockchain_name = flags.blockchain_name;
  network_id = flags.network_id;
  network_name = flags.network_name;
  gas_per_data_byte = flags.gas_per_data_byte;
  gas_price_modifier = flags.gas_price_modifier;
  gas_limit_custom_transfer = flags.gas_limit_custom_transfer;
  min_gas_price = flags.min_gas_price;
  min_gas_limit = flags.min_gas_limit;
  extra_gas_limit_guarded_tx = flags.extra_gas_limit_guarded_tx;
  extra_gas_limit_relayed_tx_v3 = flags.extra_gas_limit_relayed_tx_v3;
  native_currency_symbol = flags.native_currency_symbol;
  custom_currencies = custom_currencies;
  genesis_block_hash = flags.genesis_block;
  genesis_timestamp = 0;
  first_historical_epoch = flags.first_historical_epoch;
  num_historical_epochs = flags.num_historical_epochs;
  should_handle_contracts = flags.should_handle_contracts;
  activation_epoch_sirius = flags.activation_epoch_sirius;
  activation_epoch_spica = flags.activation_epoch_spica;
}

-- The HTTP server before it listens; `pprof` says whether the routes of pprof are added.
pub record HttpServer : Type 0 where
  pub port : ℤ
  pub created : CreatedProvider
  pub controllers : Controllers
  pub pprof : Bool

module _ {Float Asserter : Type 0} ⦃lib : Libraries⦄ (factory : FactoryLibraries)
    (price_of : Float → ℕ → ℕ) (config : ConfigLibraries)
    (new_server : List Bytes → Bool → List NetworkIdentifier → Result Failure Asserter)
    (order : List ApiTransaction → List ApiTransaction) (fuel : ℕ) where
  -- The created provider, as the services see it.
  unfoldable pub services_provider : CreatedProvider → Services.NetworkProvider
  services_provider created =
      as_seen_by_services ⦃libs = created.connection.libraries⦄ order fuel created.provider
        created.connection.observer

  unfoldable pub start_rosetta : Context Float → Result Failure HttpServer
  start_rosetta ctx = do
    custom_currencies ←
        decide_custom_currencies config (get_parsed_cli_flags ctx).config_file_custom_currencies
    created ←
        create_network_provider factory price_of
          (args_of_flags (get_parsed_cli_flags ctx) custom_currencies)
    controllers ← create_controllers new_server (services_provider created)
    ok (record {
      port = (get_parsed_cli_flags ctx).port;
      created = created;
      controllers = controllers;
      pprof = (get_parsed_cli_flags ctx).should_enable_pprof_endpoints;
    })
