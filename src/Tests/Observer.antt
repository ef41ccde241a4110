-- ===== src/Tests/Observer.antt =====
-- A small cache, an observer whose chain has grown to a height, and a provider on top of them.
use rosetta_images.Base.{
  ℕ, zero, suc, ◌-◌, ◌≡◌, refl, ◌⊎◌, inl, inr, true, false, Option, none, some, [], ◌∷◌, take,
  Bytes, Dict, lookup, delete, lookup-delete, codes, ok, err, pos, ltb, ◌==◌, bytes_eq,
  bytes_eq_iff, if◌then◌else◌, Bool-cases, Result,
}
use mathlib.Core.Option.{none-ne-some, some-injective}
use rosetta_images.Failure.{bad_json}
use rosetta_images.Api.{Block}
use rosetta_images.Provider.Cache.{BlocksCache}
use rosetta_images.Provider.Currencies.{CurrenciesProvider}
use rosetta_images.Provider.Observer.{
  ApiResponse, NetworkProvider, NodeStatus, ObserverFacade, Payload, ProviderLibraries, Resource,
  account, account_esdt_balance, epoch_start, genesis_balances, node_status,
}
use rosetta_images.Tests.Sample.{native, sample_provider, token}

lookup-take :
    (n : ℕ) (k : Bytes) (m : Dict Block) {b : Block}
    → lookup k (take n m) ≡ some b
    → lookup k m ≡ some b
unfolding lookup
lookup-take zero k m {b} h = elim (none-ne-some b h) [ ]
lookup-take (suc n) k [] {b} h = elim (none-ne-some b h) [ ]
lookup-take (suc n) k ((j, v) ∷ m) {b} h = elim (Bool-cases (j == k)) [
  | inl e ↦ rw e (rw e at h)
  | inr e ↦ rw e (lookup-take n k m (rw e at h))
]

-- The three blocks that were put last.
abbrev pub put : Bytes → Block → Dict Block → Dict Block
put k v m = take 3 ((k, v) ∷ delete k m)

pub put_lem :
    (k j : Bytes) (v : Block) (m : Dict Block) {b : Block}
    → lookup j (put k v m) ≡ some b
    → ((k ≡ j) × (v ≡ b)) ⊎ (lookup j m ≡ some b)
unfolding lookup
put_lem k j v m {b} h = found (lookup-take 3 j ((k, v) ∷ delete k m) h)
  where
    found : lookup j ((k, v) ∷ delete k m) ≡ some b → ((k ≡ j) × (v ≡ b)) ⊎ (lookup j m ≡ some b)
    found e = elim (Bool-cases (k == j)) [
      | inl same ↦ inl ((bytes_eq_iff k j).0 same, some-injective v b (rw same at e))
      | inr other ↦ inr (rw (lookup-delete k j m, other) at (rw other at e))
    ]

pub nothing_put : (k : Bytes) → Path (Option Block) (lookup k []) none
unfolding lookup
nothing_put k = refl

instance abbrev pub last_three : BlocksCache (Dict Block)
last_three = record {
  get = λ k m. (lookup k m, m);
  put = put;
  empty = [];
  contents = λ m k. lookup k m;
  get_found = λ k m. refl;
  get_contents = λ k j m e. e;
  put_contents = λ k j v m e. put_lem k j v m e;
  empty_contents = λ k. nothing_put k;
}

instance abbrev pub sample_provider_libraries : ProviderLibraries
sample_provider_libraries = record {
  unmarshal_structured_api_error = λ e. err bad_json;
  encode_pub_key = λ pub_key. ok pub_key;
  decode_pub_key = λ address. ok address;
  calculate_hash = λ receipt. ok receipt.receipt_data;
  url_with_query = λ path key value. path;
  tx_status_pending = codes "pending";
}

abbrev pub chain_block : ℕ → Block
chain_block n = record {
  nonce = n;
  round = n;
  epoch = 1;
  shard = 0;
  hash = n ∷ [];
  prev_block_hash = (n - 1) ∷ [];
  status = codes "on-chain";
  timestamp = n;
  mini_blocks = [];
}

abbrev pub status_at : ℕ → NodeStatus
status_at height = record {
  version = codes "v1";
  connected_peers_counts = [];
  observer_public_key = codes "key";
  is_syncing = pos 0;
  current_epoch = 1;
  highest_nonce = height;
  highest_final_nonce = height - 1;
}

abbrev answers : ℕ → (r : Resource) → Result Bytes (ApiResponse (Payload r))
answers height genesis_balances = ok (record { error = []; payload = [] })
answers height node_status = ok (record { error = []; payload = status_at height })
answers height epoch_start = ok (record { error = []; payload = 1 })
answers height account = ok (record {
  error = [];
  payload = record {
    account = record { address = codes "alice"; nonce = 4; balance = codes "700" };
    block_coordinates = record { nonce = 5; hash = codes "h5" };
  };
})
answers height account_esdt_balance = ok (record {
  error = [];
  payload = record {
    token_data = record { token_identifier = token; balance = codes "30" };
    block_coordinates = record { nonce = 5; hash = codes "h5" };
  };
})

abbrev pub block_answer : ℕ → ℕ → Result Bytes (ApiResponse Block)
block_answer height n =
    if ltb height n
    then err (codes "not found")
    else ok (record { error = []; payload = chain_block n })

-- The blocks up to the height are there.
abbrev pub observer_at : ℕ → ObserverFacade
observer_at height = record {
  call_get_rest_end_point = λ r url path. answers height r;
  compute_shard_id = λ pub_key. 0;
  send_transaction = λ tx. ok (codes "hash");
  compute_transaction_hash = λ tx. ok (codes "hash");
  get_transaction_by_hash_and_sender_address = λ hash sender events. err (codes "not found");
  get_block_by_hash = λ shard hash options. block_answer height 5;
  get_block_by_nonce = λ shard nonce options. block_answer height nonce;
}

abbrev pub provider_with : CurrenciesProvider → NetworkProvider
provider_with currencies = record {
  currencies_provider = currencies;
  is_offline = false;
  observed_actual_shard = 0;
  observed_projected_shard = 0;
  observed_projected_shard_is_set = false;
  observer_url = codes "http://localhost";
  genesis_block_hash = codes "genesis";
  genesis_timestamp = 7;
  first_historical_epoch = 0;
  num_historical_epochs = 8;
  should_handle_contracts = true;
  activation_epoch_sirius = 0;
  activation_epoch_spica = 0;
  network_config = sample_provider.get_network_config;
}

abbrev pub sample : NetworkProvider
sample = provider_with (record {
  native_currency = native;
  custom_currencies_symbols = token ∷ [];
  custom_currencies = record { symbol = token; decimals = 2 } ∷ [];
  custom_currencies_by_symbol = (token, record { symbol = token; decimals = 2 }) ∷ [];
})
