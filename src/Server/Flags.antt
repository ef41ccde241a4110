-- ===== src/Server/Flags.antt =====
-- cmd/rosetta/cli.go and cmd/rosetta/config.go: the flags of the command, and the custom currencies
-- of the file that one of them names.
use rosetta_images.Base.{
  ℕ, ◌%◌, ℤ, Bool, List, [], Bytes, codes, Result, ok, ◌>>=◌, is_empty, if◌then◌else◌,
}
use rosetta_images.Failure.{Failure}
use rosetta_images.Rosetta.{Currency}

-- `cli.Context` of urfave/cli: the value of a flag, by the flag's name. `Float` is Go's `float64`.
pub record Context (Float : Type 0) : Type 0 where
  pub global_int : Bytes → ℤ
  pub global_bool : Bytes → Bool
  pub global_string : Bytes → Bytes
  pub global_uint : Bytes → ℕ
  pub global_uint64 : Bytes → ℕ
  pub global_int64 : Bytes → ℤ
  pub global_float64 : Bytes → Float
  pub global_is_set : Bytes → Bool

pub record ParsedCliFlags (Float : Type 0) : Type 0 where
  pub port : ℤ
  pub offline : Bool
  pub log_level : Bytes
  pub logs_folder : Bytes
  pub observer_actual_shard : ℕ
  pub observer_projected_shard : ℕ
  pub observer_projected_shard_is_set : Bool
  pub observer_http_url : Bytes
  pub blockchain_name : Bytes
  pub network_id : Bytes
  pub network_name : Bytes
  pub num_shards : ℕ
  pub genesis_block : Bytes
  pub genesis_timestamp : ℤ
  pub min_gas_price : ℕ
  pub min_gas_limit : ℕ
  pub extra_gas_limit_guarded_tx : ℕ
  pub extra_gas_limit_relayed_tx_v3 : ℕ
  pub gas_per_data_byte : ℕ
  pub gas_price_modifier : Float
  pub gas_limit_custom_transfer : ℕ
  pub native_currency_symbol : Bytes
  pub first_historical_epoch : ℕ
  pub num_historical_epochs : ℕ
  pub should_handle_contracts : Bool
  pub config_file_custom_currencies : Bytes
  pub activation_epoch_sirius : ℕ
  pub activation_epoch_spica : ℕ
  pub should_enable_pprof_endpoints : Bool

-- The conversion to Go's `uint32`.
abbrev pub uint32 : ℕ → ℕ
uint32 n = n % 4294967296

unfoldable pub get_parsed_cli_flags : {Float : Type 0} → Context Float → ParsedCliFlags Float
get_parsed_cli_flags ctx = record {
  port = ctx.global_int (codes "port");
  offline = ctx.global_bool (codes "offline");
  log_level = ctx.global_string (codes "log-level");
  logs_folder = ctx.global_string (codes "logs-folder");
  observer_actual_shard = uint32 (ctx.global_uint (codes "observer-actual-shard"));
  observer_projected_shard = uint32 (ctx.global_uint (codes "observer-projected-shard"));
  observer_projected_shard_is_set = ctx.global_is_set (codes "observer-projected-shard");
  observer_http_url = ctx.global_string (codes "observer-http-url");
  blockchain_name = ctx.global_string (codes "blockchain");
  network_id = ctx.global_string (codes "network-id");
  network_name = ctx.global_string (codes "network-name");
  num_shards = uint32 (ctx.global_uint (codes "num-shards"));
  genesis_block = ctx.global_string (codes "genesis-block");
  genesis_timestamp = ctx.global_int64 (codes "genesis-timestamp");
  min_gas_price = ctx.global_uint64 (codes "min-gas-price");
  min_gas_limit = ctx.global_uint64 (codes "min-gas-limit");
  extra_gas_limit_guarded_tx = ctx.global_uint64 (codes "extra-gas-limit-guarded-tx");
  extra_gas_limit_relayed_tx_v3 = ctx.global_uint64 (codes "extra-gas-limit-relayed-tx-v3");
  gas_per_data_byte = ctx.global_uint64 (codes "gas-per-data-byte");
  gas_price_modifier = ctx.global_float64 (codes "gas-price-modifier");
  gas_limit_custom_transfer = ctx.global_uint64 (codes "gas-limit-custom-transfer");
  native_currency_symbol = ctx.global_string (codes "native-currency");
  first_historical_epoch = uint32 (ctx.global_uint (codes "first-historical-epoch"));
  num_historical_epochs = uint32 (ctx.global_uint (codes "num-historical-epochs"));
  should_handle_contracts = ctx.global_bool (codes "handle-contracts");
  config_file_custom_currencies = ctx.global_string (codes "config-custom-currencies");
  activation_epoch_sirius = uint32 (ctx.global_uint (codes "activation-epoch-sirius"));
  activation_epoch_spica = uint32 (ctx.global_uint (codes "activation-epoch-spica"));
  should_enable_pprof_endpoints = ctx.global_bool (codes "pprof");
}

-- `os.ReadFile`, and `json.Unmarshal` of a list of currencies, each with its error.
pub record ConfigLibraries : Type 0 where
  pub read_file : Bytes → Result Failure Bytes
  pub unmarshal_currencies : Bytes → Result Failure (List Currency)

module _ (libs : ConfigLibraries) where
  unfoldable pub load_config_of_custom_currencies : Bytes → Result Failure (List Currency)
  load_config_of_custom_currencies config_file = do
    file_content ← libs.read_file config_file
    custom_currencies ← libs.unmarshal_currencies file_content
    ok custom_currencies

  unfoldable pub decide_custom_currencies : Bytes → Result Failure (List Currency)
  decide_custom_currencies config_file =
      if is_empty config_file then ok [] else load_config_of_custom_currencies config_file
