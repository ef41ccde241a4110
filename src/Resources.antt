-- ===== src/Resources.antt =====
-- server/resources: the resources that the provider hands to the services.
use rosetta_images.Base.{ℕ, Bool, true, false, Option, none, some, [], Bytes, Dict, ℤ}

-- resources.go
pub record BlockSummary : Type 0 where
  pub nonce : ℕ
  pub hash : Bytes
  pub previous_block_hash : Bytes
  pub timestamp : ℕ

pub record BlockCoordinates : Type 0 where
  pub nonce : ℕ
  pub hash : Bytes

-- accountQueryOptions.go; a `core.OptionalUint64` is an option
pub record AccountQueryOptions : Type 0 where
  pub on_final_block : Bool
  pub block_nonce : Option ℕ
  pub block_hash : Bytes

unfoldable pub new_account_query_options_on_final_block : AccountQueryOptions
new_account_query_options_on_final_block = record {
  on_final_block = true;
  block_nonce = none;
  block_hash = [];
}

unfoldable pub new_account_query_options_with_block_nonce : ℕ → AccountQueryOptions
new_account_query_options_with_block_nonce nonce = record {
  on_final_block = false;
  block_nonce = some nonce;
  block_hash = [];
}

unfoldable pub new_account_query_options_with_block_hash : Bytes → AccountQueryOptions
new_account_query_options_with_block_hash hash = record {
  on_final_block = false;
  block_nonce = none;
  block_hash = hash;
}

-- accounts.go
pub record Account : Type 0 where
  pub address : Bytes
  pub nonce : ℕ
  pub balance : Bytes

pub record AccountOnBlock : Type 0 where
  pub account : Account
  pub block_coordinates : BlockCoordinates

pub record AccountBalanceOnBlock : Type 0 where
  pub balance : Bytes
  pub nonce : Option ℕ
  pub block_coordinates : BlockCoordinates

-- genesis.go
pub record GenesisBalance : Type 0 where
  pub address : Bytes
  pub balance : Bytes

-- network.go; `execution_gas_price` stands for `uint64(float64(gasPrice) * GasPriceModifier)`
pub record NetworkConfig : Type 0 where
  pub blockchain_name : Bytes
  pub network_id : Bytes
  pub network_name : Bytes
  pub min_gas_price : ℕ
  pub min_gas_limit : ℕ
  pub gas_per_data_byte : ℕ
  pub execution_gas_price : ℕ → ℕ
  pub gas_limit_custom_transfer : ℕ
  pub extra_gas_limit_guarded_tx : ℕ
  pub extra_gas_limit_relayed_tx_v3 : ℕ

pub record AggregatedNodeStatus : Type 0 where
  pub version : Bytes
  pub connected_peers_counts : Dict ℤ
  pub observer_public_key : Bytes
  pub synced : Bool
  pub latest_block : BlockSummary
  pub oldest_block_with_historical_state : BlockSummary
