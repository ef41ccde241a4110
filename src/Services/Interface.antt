-- ===== src/Services/Interface.antt =====
-- server/services/interface.go: what the services ask of a network provider.
use rosetta_images.Base.{ℕ, Bool, Option, List, Bytes, Result}
use rosetta_images.Failure.{Failure}
use rosetta_images.Api.{ApiTransaction, ApiReceipt, Block, PreparedTx}
use rosetta_images.Rosetta.{Currency}
use rosetta_images.Resources.{
  AccountBalanceOnBlock, AccountOnBlock, AccountQueryOptions, AggregatedNodeStatus, BlockSummary,
  GenesisBalance, NetworkConfig,
}

-- A lookup that returns `(value, ok)` gives an option.
pub record NetworkProvider : Type 0 where
  pub is_offline : Bool
  pub get_blockchain_name : Bytes
  pub get_native_currency : Currency
  pub get_custom_currency_by_symbol : Bytes → Option Currency
  pub has_custom_currency : Bytes → Bool
  pub get_network_config : NetworkConfig
  pub get_genesis_block_summary : BlockSummary
  pub get_genesis_timestamp : ℕ
  pub get_genesis_balances : Result Failure (List GenesisBalance)
  pub get_node_status : Result Failure AggregatedNodeStatus
  pub get_block_by_nonce : ℕ → Result Failure Block
  pub get_block_by_hash : Bytes → Result Failure Block
  pub get_account : Bytes → Result Failure AccountOnBlock
  pub get_account_balance :
      Bytes → Bytes → AccountQueryOptions → Result Failure AccountBalanceOnBlock
  pub is_address_observed : Bytes → Result Failure Bool
  pub compute_shard_id_of_pub_key : Bytes → ℕ
  pub convert_pub_key_to_address : Bytes → Bytes
  pub convert_address_to_pub_key : Bytes → Result Failure Bytes
  pub compute_transaction_hash : PreparedTx → Result Failure Bytes
  pub compute_receipt_hash : ApiReceipt → Result Failure Bytes
  pub compute_transaction_fee_for_move_balance : ApiTransaction → ℕ
  pub send_transaction : PreparedTx → Result Failure Bytes
  pub get_mempool_transaction_by_hash : Bytes → Result Failure (Option ApiTransaction)
  pub is_release_sirius_active : ℕ → Bool
  pub is_release_spica_active : ℕ → Bool
