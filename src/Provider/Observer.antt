-- ===== src/Provider/Observer.antt =====
-- What the provider is built on: the observer (server/provider/interface.go), the answers of its
-- API (server/resources), and the functions of libraries that the provider calls; the fields of
-- the provider itself (server/provider/networkProvider.go).
use rosetta_images.Base.{ℕ, ℤ, Bool, List, Bytes, Result}
use rosetta_images.Failure.{Failure}
use rosetta_images.Api.{ApiTransaction, Block, PreparedTx}
use rosetta_images.Resources.{AccountOnBlock, BlockCoordinates, GenesisBalance, NetworkConfig}
use rosetta_images.Provider.Currencies.{CurrenciesProvider}

-- An answer of the observer: the error that its body reports, if any, and the data.
pub record ApiResponse {ℓ} (A : Type ℓ) : Type ℓ where
  pub error : Bytes
  pub payload : A

-- resources/network.go
pub record NodeStatus : Type 0 where
  pub version : Bytes
  pub connected_peers_counts : Bytes
  pub observer_public_key : Bytes
  pub is_syncing : ℤ
  pub current_epoch : ℕ
  pub highest_nonce : ℕ
  pub highest_final_nonce : ℕ

-- resources/accounts.go
pub record AccountEsdtTokenData : Type 0 where
  pub token_identifier : Bytes
  pub balance : Bytes

pub record AccountEsdtBalanceApiResponsePayload : Type 0 where
  pub token_data : AccountEsdtTokenData
  pub block_coordinates : BlockCoordinates

-- The responses that are asked for by path, and what each decodes to.
pub data Resource : Type 0 where
  genesis_balances node_status epoch_start account account_esdt_balance : Resource

abbrev pub Payload : Resource → Type 0
Payload genesis_balances = List GenesisBalance
Payload node_status = NodeStatus
Payload epoch_start = ℕ
Payload account = AccountOnBlock
Payload account_esdt_balance = AccountEsdtBalanceApiResponsePayload

-- common.BlockQueryOptions of mx-chain-proxy-go
pub record BlockQueryOptions : Type 0 where
  pub with_transactions : Bool
  pub with_logs : Bool

-- transaction.ApiTransactionResult with its status
pub record PooledTransaction : Type 0 where
  pub tx : ApiTransaction
  pub status : Bytes

-- An error of the facade is its message. The observer's answers are a function of the request as
-- long as one call of the provider takes; a later call may be of another observer.
pub record ObserverFacade : Type 0 where
  pub call_get_rest_end_point :
      (r : Resource) → Bytes → Bytes → Result Bytes (ApiResponse (Payload r))
  pub compute_shard_id : Bytes → ℕ
  pub send_transaction : PreparedTx → Result Bytes Bytes
  pub compute_transaction_hash : PreparedTx → Result Bytes Bytes
  pub get_transaction_by_hash_and_sender_address :
      Bytes → Bytes → Bool → Result Bytes PooledTransaction
  pub get_block_by_hash : ℕ → Bytes → BlockQueryOptions → Result Bytes (ApiResponse Block)
  pub get_block_by_nonce : ℕ → ℕ → BlockQueryOptions → Result Bytes (ApiResponse Block)

-- server/provider/errors.go
pub record StructuredApiError : Type 0 where
  pub error : Bytes
  pub code : Bytes

-- receipt.Receipt of mx-chain-core-go
pub record Receipt : Type 0 where
  pub receipt_hash : Bytes
  pub snd_addr : Bytes
  pub receipt_value : ℤ
  pub receipt_data : Bytes

-- `json.Unmarshal` of an error, the address converter, `core.CalculateHash` with the hasher and
-- the marshalizer, `url.URL.String` of a path with one query parameter, and a constant.
pub record ProviderLibraries : Type 0 where
  pub unmarshal_structured_api_error : Bytes → Result Failure StructuredApiError
  pub encode_pub_key : Bytes → Result Failure Bytes
  pub decode_pub_key : Bytes → Result Failure Bytes
  pub calculate_hash : Receipt → Result Failure Bytes
  pub url_with_query : Bytes → Bytes → Bytes → Bytes
  pub tx_status_pending : Bytes

-- The fields of the Go struct `networkProvider` that stay as they were constructed.
pub record NetworkProvider : Type 0 where
  pub currencies_provider : CurrenciesProvider
  pub is_offline : Bool
  pub observed_actual_shard : ℕ
  pub observed_projected_shard : ℕ
  pub observed_projected_shard_is_set : Bool
  pub observer_url : Bytes
  pub genesis_block_hash : Bytes
  pub genesis_timestamp : ℕ
  pub first_historical_epoch : ℕ
  pub num_historical_epochs : ℕ
  pub should_handle_contracts : Bool
  pub activation_epoch_sirius : ℕ
  pub activation_epoch_spica : ℕ
  pub network_config : NetworkConfig
