-- ===== src/Provider/Accounts.antt =====
-- server/provider/accounts.go and urls.go: accounts and balances, and the paths that they are asked
-- for by.
use rosetta_images.Base.{
  ℕ, Option, none, some, Bytes, Result, ok, map_err, codes, ◌++◌, ◌>>=◌, ◌==◌, nat_eq, bytes_eq,
  if◌then◌else◌, is_empty,
}
use rosetta_images.Text.Decimal.{format}
use rosetta_images.Text.Hex.{hex_encode}
use rosetta_images.Failure.{Failure, cannot_get_account}
use rosetta_images.Resources.{
  AccountBalanceOnBlock, AccountOnBlock, AccountQueryOptions,
  new_account_query_options_on_final_block,
}
use rosetta_images.Provider.Observer.{
  NetworkProvider, ObserverFacade, ProviderLibraries, account, account_esdt_balance,
}
use rosetta_images.Provider.Requests.{get_resource}
use rosetta_images.Provider.Token.{TokenIdentifierParts, parse_token_identifier_into_parts}

unfoldable pub build_url_get_epoch_start_info : ℕ → Bytes
build_url_get_epoch_start_info epoch = codes "/node/epoch-start/" ++ format epoch

module _ ⦃libs : ProviderLibraries⦄ where
  -- `url.URL` and `url.Values` write the one parameter.
  unfoldable pub build_url_with_query_parameter : Bytes → Bytes → Bytes → Bytes
  build_url_with_query_parameter path key value = libs.url_with_query path key value

  abbrev pub with_block_hash : Bytes → Bytes → Bytes
  with_block_hash path block_hash =
      if is_empty block_hash
      then path
      else build_url_with_query_parameter path (codes "blockHash") (hex_encode block_hash)

  abbrev pub with_block : Bytes → Option ℕ → Bytes → Bytes
  with_block path (some nonce) block_hash =
      build_url_with_query_parameter path (codes "blockNonce") (format nonce)
  with_block path none block_hash = with_block_hash path block_hash

  unfoldable pub build_url_with_account_query_options : Bytes → AccountQueryOptions → Bytes
  build_url_with_account_query_options path options =
      if options.on_final_block
      then build_url_with_query_parameter path (codes "onFinalBlock") (codes "true")
      else with_block path options.block_nonce options.block_hash

  unfoldable pub build_url_get_account : Bytes → Bytes
  build_url_get_account address =
      build_url_with_account_query_options (codes "/address/" ++ address)
        new_account_query_options_on_final_block

  unfoldable pub build_url_get_account_native_balance : Bytes → AccountQueryOptions → Bytes
  build_url_get_account_native_balance address options =
      build_url_with_account_query_options (codes "/address/" ++ address) options

  unfoldable pub build_url_get_account_fungible_token_balance :
      Bytes → Bytes → AccountQueryOptions → Bytes
  build_url_get_account_fungible_token_balance address token_identifier options =
      build_url_with_account_query_options
        (codes "/address/" ++ address ++ codes "/esdt/" ++ token_identifier) options

  unfoldable pub build_url_get_account_non_fungible_token_balance :
      Bytes → Bytes → ℕ → AccountQueryOptions → Bytes
  build_url_get_account_non_fungible_token_balance address token_identifier nonce options =
      build_url_with_account_query_options
        (codes "/address/"
          ++ address
          ++ codes "/nft/"
          ++ token_identifier
          ++ codes "/nonce/"
          ++ format nonce)
        options

  -- The path by the parts of the token identifier: with a nonce, of a non-fungible token.
  abbrev pub url_of_parts : Bytes → Bytes → AccountQueryOptions → TokenIdentifierParts → Bytes
  url_of_parts address token_identifier options parts =
      if parts.nonce == 0
      then build_url_get_account_fungible_token_balance address token_identifier options
      else build_url_get_account_non_fungible_token_balance address
          parts.ticker_with_random_sequence parts.nonce options

  unfoldable pub decide_custom_token_balance_url :
      Bytes → Bytes → AccountQueryOptions → Result Failure Bytes
  decide_custom_token_balance_url address token_identifier options =
      parse_token_identifier_into_parts token_identifier >>= λ parts.
      ok (url_of_parts address token_identifier options parts)

module _ ⦃libs : ProviderLibraries⦄ (provider : NetworkProvider) (observer : ObserverFacade) where
  unfoldable pub get_account : Bytes → Result Failure AccountOnBlock
  get_account address =
      map_err (cannot_get_account address)
        (get_resource provider observer account (build_url_get_account address))

  -- The nonce of the account comes with the native balance.
  unfoldable pub get_native_balance :
      Bytes → AccountQueryOptions → Result Failure AccountBalanceOnBlock
  get_native_balance address options =
      map_err (cannot_get_account address) (
        get_resource provider observer account
          (build_url_get_account_native_balance address options))
      >>= λ (answer : AccountOnBlock). ok (record {
        balance = answer.account.balance;
        nonce = some answer.account.nonce;
        block_coordinates = answer.block_coordinates;
      })

  unfoldable pub get_custom_token_balance :
      Bytes → Bytes → AccountQueryOptions → Result Failure AccountBalanceOnBlock
  get_custom_token_balance address token_identifier options = do
    url ← decide_custom_token_balance_url address token_identifier options
    answer ←
        map_err (cannot_get_account address)
          (get_resource provider observer account_esdt_balance url)
    ok (record {
      balance = answer.token_data.balance;
      nonce = none;
      block_coordinates = answer.block_coordinates;
    })

  unfoldable pub get_account_balance :
      Bytes → Bytes → AccountQueryOptions → Result Failure AccountBalanceOnBlock
  get_account_balance address token_identifier options =
      if token_identifier == provider.currencies_provider.native_currency.symbol
      then get_native_balance address options
      else get_custom_token_balance address token_identifier options
