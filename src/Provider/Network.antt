-- ===== src/Provider/Network.antt =====
-- server/provider/networkProvider.go: the construction of the provider, its other operations, and
-- the interface that the services use it by.
use rosetta_images.Base.{
  ℕ, ◌%◌, Bool, true, false, not, Option, none, some, List, [], ◌∷◌, Bytes, Result, ok, err,
  map_err, ◌>>=◌, ◌==◌, ◌&&◌, ◌||◌, nat_eq, bytes_eq, if◌then◌else◌, ok_or,
}
use rosetta_images.Text.Hex.{hex_decode, hex_encode}
use rosetta_images.Failure.{
  Failure, bad_hex, cannot_get_transaction, external, index_out_of_range, is_offline,
}
use rosetta_images.Api.{PreparedTx, ApiReceipt, ApiTransaction, Libraries}
use rosetta_images.Rosetta.{Currency}
use rosetta_images.Resources.{BlockSummary, NetworkConfig}
use rosetta_images.Provider.Observer.{
  NetworkProvider, ObserverFacade, PooledTransaction, ProviderLibraries,
}
use rosetta_images.Provider.Currencies.{
  get_custom_currency_by_symbol, has_custom_currency, new_currencies_provider,
}
use rosetta_images.Provider.MoveBalance.{
  compute_transaction_fee_for_move_balance, is_release_sirius_active, is_release_spica_active,
}
use rosetta_images.Provider.Blocks.Uncached.{block_by_hash, block_by_nonce}
use rosetta_images.Provider.Accounts.{get_account, get_account_balance}
use rosetta_images.Provider.Status.{get_genesis_balances, get_node_status}
use rosetta_images.Services.Interface as Services

abbrev pub native_currency_num_decimals : ℕ
native_currency_num_decimals = 18

abbrev pub genesis_block_nonce : ℕ
genesis_block_nonce = 0

pub record ArgsNewNetworkProvider : Type 0 where
  pub is_offline : Bool
  pub observed_actual_shard : ℕ
  pub observed_projected_shard : ℕ
  pub observed_projected_shard_is_set : Bool
  pub observer_url : Bytes
  pub network_config : NetworkConfig
  pub native_currency_symbol : Bytes
  pub custom_currencies : List Currency
  pub genesis_block_hash : Bytes
  pub genesis_timestamp : ℕ
  pub first_historical_epoch : ℕ
  pub num_historical_epochs : ℕ
  pub should_handle_contracts : Bool
  pub activation_epoch_sirius : ℕ
  pub activation_epoch_spica : ℕ

-- A cache of the capacity 1024, which the cache's library accepts, is made beside it.
unfoldable pub new_network_provider : ArgsNewNetworkProvider → Result Failure NetworkProvider
new_network_provider args =
    new_currencies_provider native_currency_num_decimals args.native_currency_symbol
      args.custom_currencies
    >>= λ currencies_provider. ok (record {
      currencies_provider = currencies_provider;
      is_offline = args.is_offline;
      observed_actual_shard = args.observed_actual_shard;
      observed_projected_shard = args.observed_projected_shard;
      observed_projected_shard_is_set = args.observed_projected_shard_is_set;
      observer_url = args.observer_url;
      genesis_block_hash = args.genesis_block_hash;
      genesis_timestamp = args.genesis_timestamp;
      first_historical_epoch = args.first_historical_epoch;
      num_historical_epochs = args.num_historical_epochs;
      should_handle_contracts = args.should_handle_contracts;
      activation_epoch_sirius = args.activation_epoch_sirius;
      activation_epoch_spica = args.activation_epoch_spica;
      network_config = args.network_config;
    })

unfoldable pub get_genesis_block_summary : NetworkProvider → BlockSummary
get_genesis_block_summary provider = record {
  nonce = genesis_block_nonce;
  hash = provider.genesis_block_hash;
  previous_block_hash = [];
  timestamp = provider.genesis_timestamp;
}

-- `pubKey[len(pubKey)-1]`
abbrev pub last_byte : Bytes → Option ℕ
last_byte [] = none
last_byte (b ∷ []) = some b
last_byte (_ ∷ c ∷ s) = last_byte (c ∷ s)

module _ ⦃lib : Libraries⦄ ⦃libs : ProviderLibraries⦄ (provider : NetworkProvider)
    (observer : ObserverFacade) where
  unfoldable pub convert_pub_key_to_address : Bytes → Bytes
  convert_pub_key_to_address pub_key = ok_or [] (libs.encode_pub_key pub_key)

  unfoldable pub convert_address_to_pub_key : Bytes → Result Failure Bytes
  convert_address_to_pub_key address = libs.decode_pub_key address

  unfoldable pub compute_shard_id_of_pub_key : Bytes → ℕ
  compute_shard_id_of_pub_key pub_key = observer.compute_shard_id pub_key

  -- The last byte is read only if a projected shard is set.
  abbrev projected_shard_of : Option ℕ → Result Failure Bool
  projected_shard_of none = err index_out_of_range
  projected_shard_of (some b) = ok (b == provider.observed_projected_shard % 256)

  abbrev pub passes_constraint_about_observed_projected_shard : Bytes → Result Failure Bool
  passes_constraint_about_observed_projected_shard pub_key =
      if not provider.observed_projected_shard_is_set
      then ok true
      else projected_shard_of (last_byte pub_key)

  unfoldable pub is_address_observed : Bytes → Result Failure Bool
  is_address_observed address = do
    pub_key ← convert_address_to_pub_key address
    passes_projected ← passes_constraint_about_observed_projected_shard pub_key
    ok (
        observer.compute_shard_id pub_key == provider.observed_actual_shard
        && passes_projected
        && (provider.should_handle_contracts || not (lib.is_smart_contract_address pub_key)))

  unfoldable pub compute_transaction_hash : PreparedTx → Result Failure Bytes
  compute_transaction_hash tx = map_err external (observer.compute_transaction_hash tx)

  abbrev hex_or_error : Bytes → Option Bytes → Result Failure Bytes
  hex_or_error s none = err (bad_hex s)
  hex_or_error s (some decoded) = ok decoded

  unfoldable pub compute_receipt_hash : ApiReceipt → Result Failure Bytes
  compute_receipt_hash api_receipt = do
    tx_hash ← hex_or_error api_receipt.tx_hash (hex_decode api_receipt.tx_hash)
    sender_pub_key ← convert_address_to_pub_key api_receipt.snd_addr
    receipt_hash ← libs.calculate_hash (record {
      receipt_hash = tx_hash;
      snd_addr = sender_pub_key;
      receipt_value = api_receipt.receipt_value;
      receipt_data = api_receipt.receipt_data;
    })
    ok (hex_encode receipt_hash)

  unfoldable pub send_transaction : PreparedTx → Result Failure Bytes
  send_transaction tx =
      if provider.is_offline
      then err is_offline
      else map_err external (observer.send_transaction tx)

  abbrev if_pending : PooledTransaction → Option ApiTransaction
  if_pending pooled = if pooled.status == libs.tx_status_pending then some pooled.tx else none

  unfoldable pub get_mempool_transaction_by_hash : Bytes → Result Failure (Option ApiTransaction)
  get_mempool_transaction_by_hash hash =
      if provider.is_offline
      then err is_offline
      else map_err (λ e. cannot_get_transaction hash (external e))
          (observer.get_transaction_by_hash_and_sender_address hash [] false)
        >>= λ pooled. ok (if_pending pooled)

-- The provider as the services see it while the observer's answers are those of `observer`.
-- `block_by_nonce` and `block_by_hash` stand for the calls through the cache.
module _ ⦃lib : Libraries⦄ ⦃libs : ProviderLibraries⦄
    (order : List ApiTransaction → List ApiTransaction) (fuel : ℕ) (provider : NetworkProvider)
    (observer : ObserverFacade) where
  unfoldable pub as_seen_by_services : Services.NetworkProvider
  as_seen_by_services = record {
    is_offline = provider.is_offline;
    get_blockchain_name = provider.network_config.blockchain_name;
    get_native_currency = provider.currencies_provider.native_currency;
    get_custom_currency_by_symbol = get_custom_currency_by_symbol provider.currencies_provider;
    has_custom_currency = has_custom_currency provider.currencies_provider;
    get_network_config = provider.network_config;
    get_genesis_block_summary = get_genesis_block_summary provider;
    get_genesis_timestamp = provider.genesis_timestamp;
    get_genesis_balances = get_genesis_balances provider observer;
    get_node_status = get_node_status provider observer;
    get_block_by_nonce = block_by_nonce order fuel provider observer;
    get_block_by_hash = block_by_hash order fuel provider observer;
    get_account = get_account provider observer;
    get_account_balance = get_account_balance provider observer;
    is_address_observed = is_address_observed provider observer;
    compute_shard_id_of_pub_key = compute_shard_id_of_pub_key provider observer;
    convert_pub_key_to_address = convert_pub_key_to_address provider observer;
    convert_address_to_pub_key = convert_address_to_pub_key provider observer;
    compute_transaction_hash = compute_transaction_hash provider observer;
    send_transaction = send_transaction provider observer;
    compute_receipt_hash = compute_receipt_hash provider observer;
    compute_transaction_fee_for_move_balance =
        compute_transaction_fee_for_move_balance provider.network_config;
    get_mempool_transaction_by_hash = get_mempool_transaction_by_hash provider observer;
    is_release_sirius_active = is_release_sirius_active provider.activation_epoch_sirius;
    is_release_spica_active = is_release_spica_active provider.activation_epoch_spica;
  }
