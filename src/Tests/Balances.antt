-- ===== src/Tests/Balances.antt =====
-- A balance in a custom currency, from the request to the answer.
use rosetta_images.Base.{
  ◌≡◌, refl, [], ◌∷◌, true, false, none, codes, ok, pos, insert, lookup, bytes_beq,
}
use rosetta_images.Text.Split.{split}
use rosetta_images.Rosetta.{AccountBalanceResponse}
use rosetta_images.Services.Converters
use rosetta_images.Services.Extension
use rosetta_images.Provider.Accounts
use rosetta_images.Provider.Token
use rosetta_images.Provider.Requests.{get_resource, get_resource_with_err_conversion}
use rosetta_images.Provider.Currencies.{
  get_custom_currency_by_symbol, index_by_symbol, new_currencies_provider,
}
use rosetta_images.Provider.Network.{
  ArgsNewNetworkProvider, as_seen_by_services, new_network_provider,
}
use rosetta_images.Services.Accounts.{AccountBalanceRequest, do_get_account_balance}
use rosetta_images.Server.Balances.{IsBalanceOf, do_get_account_balance_lem}
use rosetta_images.Tests.Sample.{native, sample_libraries, token}
use rosetta_images.Tests.Observer.{observer_at, sample, sample_provider_libraries}

abbrev args : ArgsNewNetworkProvider
args = record {
  is_offline = false;
  observed_actual_shard = 0;
  observed_projected_shard = 0;
  observed_projected_shard_is_set = false;
  observer_url = codes "http://localhost";
  network_config = sample.network_config;
  native_currency_symbol = native.symbol;
  custom_currencies = record { symbol = token; decimals = 2 } ∷ [];
  genesis_block_hash = codes "genesis";
  genesis_timestamp = 7;
  first_historical_epoch = 0;
  num_historical_epochs = 8;
  should_handle_contracts = true;
  activation_epoch_sirius = 0;
  activation_epoch_spica = 0;
}

made : new_network_provider args ≡ ok sample
unfolding new_network_provider new_currencies_provider insert index_by_symbol
made = refl

abbrev balance_request : AccountBalanceRequest
balance_request = record {
  account_identifier = record { address = codes "alice" };
  block_identifier = none;
  currencies = record { symbol = token; decimals = 2 } ∷ [];
}

abbrev balance_answered : AccountBalanceResponse
balance_answered = record {
  block_identifier = record { index = pos 5; hash = codes "h5" };
  balances = record { value = codes "30"; currency = record { symbol = token; decimals = 2 } } ∷ [];
  metadata = [];
}

balance_run :
    do_get_account_balance
      (as_seen_by_services (λ txs. txs) 10 sample (observer_at 8))
      balance_request
    ≡ ok balance_answered
unfolding do_get_account_balance Converters.block_identifier_to_account_query_options bytes_beq
    as_seen_by_services Accounts.get_account_balance Accounts.get_custom_token_balance
    Accounts.decide_custom_token_balance_url Token.parse_token_identifier_into_parts split
    get_resource get_resource_with_err_conversion Converters.account_block_coordinates_to_identifier
    Extension.value_to_amount Converters.int64 Extension.is_native_currency_symbol
    Extension.value_to_custom_amount get_custom_currency_by_symbol lookup
balance_run = refl

do_get_account_balance_lem_example :
    IsBalanceOf sample (observer_at 8) native.symbol balance_request balance_answered
do_get_account_balance_lem_example =
    do_get_account_balance_lem (λ txs. txs) 10 args sample (observer_at 8) balance_request
      balance_answered made balance_run
