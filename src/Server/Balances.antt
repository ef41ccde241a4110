-- ===== src/Server/Balances.antt =====
-- /account/balance, from the request to the observer's answer: accountService.go on top of
-- accounts.go and currenciesProvider.go.
use rosetta_images.Base.{
  ℕ, ◌≡◌, ◌≢◌, refl, sym, ◌∙◌, ap, ◌⊎◌, inl, inr, subst, Option, none, some, List, [], ◌∷◌, Bytes,
  ok, map_err, >>=-eq-ok, ok-injective, ok-of_map_err, ◌==◌, bytes_eq, bytes_eq_iff, if◌then◌else◌,
  true, false, Bool-cases,
}
use rosetta_images.Api.{ApiTransaction, Libraries}
use rosetta_images.Resources.{AccountBalanceOnBlock, AccountOnBlock, AccountQueryOptions}
use rosetta_images.Rosetta.{AccountBalanceResponse, Amount, Currency}
use rosetta_images.Provider.Observer.{
  AccountEsdtBalanceApiResponsePayload, NetworkProvider, ObserverFacade, ProviderLibraries, account,
  account_esdt_balance,
}
use rosetta_images.Provider.Accounts.{
  build_url_get_account_native_balance, decide_custom_token_balance_url, get_account_balance,
  get_custom_token_balance, get_native_balance, url_of_parts,
}
use rosetta_images.Provider.Token.{TokenIdentifierParts, parse_token_identifier_into_parts}
use rosetta_images.Failure.{cannot_get_account}
use rosetta_images.Provider.Requests.{get_resource}
use rosetta_images.Provider.Network.{
  ArgsNewNetworkProvider, native_currency_num_decimals, as_seen_by_services, new_network_provider,
}
use rosetta_images.Provider.Currencies.{
  CurrenciesProvider, index_by_symbol, get_custom_currency_by_symbol, new_currencies_provider,
  new_currencies_provider_lem,
}
use rosetta_images.Services.Interface as Services
use rosetta_images.Services.Errors.{
  err_invalid_account_address, err_unable_to_get_account, new_err, new_err_factory,
  new_err_with_original,
}
use rosetta_images.Services.Converters.{
  account_block_coordinates_to_identifier, block_identifier_to_account_query_options,
}
use rosetta_images.Services.Accounts.{
  balance_metadata, balance_response, fails_if, AccountBalanceRequest, do_get_account_balance,
  get_native_symbol, requested_symbol,
}
use rosetta_images.Services.Extension.{
  custom_currency, is_native_currency_symbol, value_to_amount, value_to_custom_amount,
  value_to_native_amount,
}

-- The symbol that a request is about.
abbrev pub asked_symbol : Bytes → List Currency → Bytes
asked_symbol native [] = native
asked_symbol native (currency ∷ _) = currency.symbol

module _ ⦃libs : ProviderLibraries⦄ (provider : NetworkProvider) (observer : ObserverFacade)
    (address : Bytes) (options : AccountQueryOptions) where
  -- The observer answered the path of the account with these options.
  abbrev pub IsNative : AccountBalanceOnBlock → Type 0
  IsNative b =
      (answer : AccountOnBlock) × (get_resource provider observer account
          (build_url_get_account_native_balance address options)
        ≡ ok answer)
      × (b ≡ record {
        balance = answer.account.balance;
        nonce = some answer.account.nonce;
        block_coordinates = answer.block_coordinates;
      })

  -- The observer answered the path of the token of the account with these options.
  abbrev pub IsOfToken : Bytes → AccountBalanceOnBlock → Type 0
  IsOfToken symbol b =
      (parts : TokenIdentifierParts) × (answer : AccountEsdtBalanceApiResponsePayload)
      × (parse_token_identifier_into_parts symbol ≡ ok parts)
      × (get_resource provider observer account_esdt_balance
            (url_of_parts address symbol options parts)
          ≡ ok answer)
      × (b ≡ record {
        balance = answer.token_data.balance;
        nonce = none;
        block_coordinates = answer.block_coordinates;
      })

  -- The nonce is there exactly where the native currency is asked for.
  abbrev pub IsAnswered : Bytes → Bytes → AccountBalanceOnBlock → Type 0
  IsAnswered native symbol b =
      ((symbol ≡ native) × IsNative b) ⊎ ((symbol ≢ native) × IsOfToken symbol b)

  get_native_balance-IsNative :
      {b : AccountBalanceOnBlock}
      → get_native_balance provider observer address options ≡ ok b
      → IsNative b
  unfolding get_native_balance
  get_native_balance-IsNative h =
      let asked =
        get_resource provider observer account
          (build_url_get_account_native_balance address options) in
      let (answer, e, last) = >>=-eq-ok (map_err (cannot_get_account address) asked) _ h in
      (answer, ok-of_map_err (cannot_get_account address) asked e, sym (ok-injective last))

  get_custom_token_balance-IsOfToken :
      (symbol : Bytes) {b : AccountBalanceOnBlock}
      → get_custom_token_balance provider observer address symbol options ≡ ok b
      → IsOfToken symbol b
  unfolding get_custom_token_balance decide_custom_token_balance_url
  get_custom_token_balance-IsOfToken symbol h =
      let (url, e_url, rest) =
        >>=-eq-ok (decide_custom_token_balance_url address symbol options) _ h in
      let (parts, e_parts, same) = >>=-eq-ok (parse_token_identifier_into_parts symbol) _ e_url in
      let asked = get_resource provider observer account_esdt_balance url in
      let (answer, e, last) = >>=-eq-ok (map_err (cannot_get_account address) asked) _ rest in
      (
        parts,
        answer,
        e_parts,
        ap (get_resource provider observer account_esdt_balance) (ok-injective same)
            ∙ ok-of_map_err (cannot_get_account address) asked e,
        sym (ok-injective last),
      )

  get_account_balance-IsAnswered :
      (symbol : Bytes) (b : AccountBalanceOnBlock)
      → get_account_balance provider observer address symbol options ≡ ok b
      → IsAnswered provider.currencies_provider.native_currency.symbol symbol b
  unfolding get_account_balance
  get_account_balance-IsAnswered symbol b h =
      let native = provider.currencies_provider.native_currency.symbol in
      elim (Bool-cases (symbol == native)) [
        | inl e ↦ inl ((bytes_eq_iff symbol native).0 e, get_native_balance-IsNative (rw e at h))
        | inr e ↦
            inr ((λ same. differ e same), get_custom_token_balance-IsOfToken symbol (rw e at h))
      ]
    where
      differ : {a c : Bytes} → (a == c) ≡ false → a ≢ c
      differ {a} {c} e same = let t = (bytes_eq_iff a c).1 same in cc

module _ (seen : Services.NetworkProvider)
    (known : (symbol : Bytes) (currency : Currency)
      → seen.get_custom_currency_by_symbol symbol ≡ some currency
      → currency.symbol ≡ symbol) where
  custom_symbol :
      (symbol : Bytes) (found : Option Currency)
      → seen.get_custom_currency_by_symbol symbol ≡ found
      → (custom_currency seen symbol found).symbol ≡ symbol
  custom_symbol symbol none e = refl
  custom_symbol symbol (some currency) e = known symbol currency e

  value_to_amount-symbol :
      (value symbol : Bytes) → (value_to_amount seen value symbol).currency.symbol ≡ symbol
  unfolding value_to_amount is_native_currency_symbol value_to_native_amount value_to_custom_amount
  value_to_amount-symbol value symbol =
      elim (Bool-cases (symbol == seen.get_native_currency.symbol)) [
        | inl e ↦ rw e (sym ((bytes_eq_iff symbol seen.get_native_currency.symbol).0 e))
        | inr e ↦ rw e (custom_symbol symbol (seen.get_custom_currency_by_symbol symbol) refl)
      ]

  value_to_amount-value : (value symbol : Bytes) → (value_to_amount seen value symbol).value ≡ value
  unfolding value_to_amount is_native_currency_symbol value_to_native_amount value_to_custom_amount
  value_to_amount-value value symbol =
      elim (symbol == seen.get_native_currency.symbol)
        as (λ b.
          (if b
            then value_to_native_amount seen value
            else value_to_custom_amount seen value symbol).value
          ≡ value) [ true ↦ refl | false ↦ refl ]

  requested_symbol-asked :
      (currencies : List Currency) {symbol : Bytes}
      → requested_symbol seen currencies ≡ ok symbol
      → symbol ≡ asked_symbol seen.get_native_currency.symbol currencies
  unfolding get_native_symbol
  requested_symbol-asked [] h = sym (ok-injective h)
  requested_symbol-asked (currency ∷ []) h = sym (ok-injective h)
  requested_symbol-asked (a ∷ b ∷ currencies) h = cc

  split_answer :
      (request : AccountBalanceRequest) {response : AccountBalanceResponse}
      → do_get_account_balance seen request ≡ ok response
      → (options : AccountQueryOptions) × (symbol : Bytes) × (b : AccountBalanceOnBlock)
        × (block_identifier_to_account_query_options request.block_identifier ≡ ok options)
        × (requested_symbol seen request.currencies ≡ ok symbol)
        × (seen.get_account_balance request.account_identifier.address symbol options ≡ ok b)
        × (response ≡ balance_response seen symbol b)
  unfolding do_get_account_balance
  split_answer request h =
      let wrap = new_err_with_original new_err_factory err_unable_to_get_account in
      let address = request.account_identifier.address in
      let asked = block_identifier_to_account_query_options request.block_identifier in
      let (options, e_options, r1) = >>=-eq-ok (map_err wrap asked) _ h in
      let (_, _, r2) =
        >>=-eq-ok (fails_if (address == []) (new_err new_err_factory err_invalid_account_address)) _
          r1 in
      let (symbol, e_symbol, r3) = >>=-eq-ok (requested_symbol seen request.currencies) _ r2 in
      let (b, e_b, last) =
        >>=-eq-ok (map_err wrap (seen.get_account_balance address symbol options)) _ r3 in
      (
        options,
        symbol,
        b,
        ok-of_map_err wrap asked e_options,
        e_symbol,
        ok-of_map_err wrap (seen.get_account_balance address symbol options) e_b,
        sym (ok-injective last),
      )

native-of_new_network_provider :
    (args : ArgsNewNetworkProvider) {provider : NetworkProvider}
    → new_network_provider args ≡ ok provider
    → (provider.currencies_provider.native_currency.symbol ≡ args.native_currency_symbol)
      × (new_currencies_provider native_currency_num_decimals args.native_currency_symbol
            args.custom_currencies
          ≡ ok provider.currencies_provider)
unfolding new_network_provider new_currencies_provider
native-of_new_network_provider args made =
    let (currencies, e, last) =
      >>=-eq-ok
        (new_currencies_provider native_currency_num_decimals args.native_currency_symbol
          args.custom_currencies)
        _ made in
    let (_, _, inner) = >>=-eq-ok (index_by_symbol 0 [] args.custom_currencies) _ e in
    let same = ap (λ (p : NetworkProvider). p.currencies_provider) (sym (ok-injective last)) in
    (
      ap (λ (c : CurrenciesProvider). c.native_currency.symbol) (same ∙ sym (ok-injective inner)),
      e ∙ ap ok (sym same),
    )

known-of_new_network_provider :
    (args : ArgsNewNetworkProvider) {provider : NetworkProvider}
    → new_network_provider args ≡ ok provider
    → (symbol : Bytes) (currency : Currency)
    → get_custom_currency_by_symbol provider.currencies_provider symbol ≡ some currency
    → currency.symbol ≡ symbol
known-of_new_network_provider args {provider} made symbol currency e =
    let (_, made_currencies) = native-of_new_network_provider args made in
    let (origin, _) =
      new_currencies_provider_lem native_currency_num_decimals args.native_currency_symbol
        args.custom_currencies provider.currencies_provider made_currencies in
    let (_, same) = origin symbol currency e in same

-- The response holds what the observer answers for the requested address, currency and block.
abbrev pub IsBalanceOf :
    ⦃libs : ProviderLibraries⦄
    → NetworkProvider
    → ObserverFacade
    → Bytes
    → AccountBalanceRequest
    → AccountBalanceResponse
    → Type 0
IsBalanceOf provider observer native request response =
    (options : AccountQueryOptions) × (b : AccountBalanceOnBlock)
    × (block_identifier_to_account_query_options request.block_identifier ≡ ok options)
    × IsAnswered provider observer request.account_identifier.address options native
        (asked_symbol native request.currencies) b
    × ((amount : Amount) × (response.balances ≡ amount ∷ [])
        × (amount.value ≡ b.balance)
        × (amount.currency.symbol ≡ asked_symbol native request.currencies))
    × (response.block_identifier ≡ account_block_coordinates_to_identifier b.block_coordinates)
    × (response.metadata ≡ balance_metadata b.nonce)

-- Where the server answers a request for a balance, with a provider made from its arguments: for
-- the native currency (also if no currency was requested), the observer answered the path of the
-- account with the options of the requested block; for another currency, the path of the token of
-- the account with these options. The answer is the one balance that the observer gave, in the
-- requested currency, at the block that the observer gave; and the account's nonce is there exactly
-- if that currency is the native one.
pub do_get_account_balance_lem :
    ⦃lib : Libraries⦄ ⦃libs : ProviderLibraries⦄ (order : List ApiTransaction → List ApiTransaction)
    (fuel : ℕ) (args : ArgsNewNetworkProvider) (provider : NetworkProvider)
    (observer : ObserverFacade) (request : AccountBalanceRequest)
    (response : AccountBalanceResponse)
    → new_network_provider args ≡ ok provider
    → do_get_account_balance (as_seen_by_services order fuel provider observer) request
      ≡ ok response
    → IsBalanceOf provider observer args.native_currency_symbol request response
unfolding do_get_account_balance as_seen_by_services
do_get_account_balance_lem order fuel args provider observer request response made h =
    let seen = as_seen_by_services order fuel provider observer in
    let (same_native, made_currencies) = native-of_new_network_provider args made in
    let known = known-of_new_network_provider args made in
    let (options, symbol, b, e_options, e_symbol, e_b, e_response) =
      split_answer seen known request h in
    let currencies = request.currencies in
    let asked =
      requested_symbol-asked seen known currencies e_symbol
      ∙ ap (λ n. asked_symbol n currencies) same_native in
    let address = request.account_identifier.address in
    let answered = get_account_balance-IsAnswered provider observer address options symbol b e_b in
    (
      options,
      b,
      e_options,
      subst
          (λ n.
            IsAnswered provider observer address options n
              (asked_symbol args.native_currency_symbol currencies) b)
          same_native
          (subst
            (λ s.
              IsAnswered provider observer address options
                provider.currencies_provider.native_currency.symbol s b)
            asked answered),
      (
        value_to_amount seen b.balance symbol,
        ap (λ (r : AccountBalanceResponse). r.balances) e_response,
        value_to_amount-value seen known b.balance symbol,
        value_to_amount-symbol seen known b.balance symbol ∙ asked,
      ),
      ap (λ (r : AccountBalanceResponse). r.block_identifier) e_response,
      ap (λ (r : AccountBalanceResponse). r.metadata) e_response,
    )
