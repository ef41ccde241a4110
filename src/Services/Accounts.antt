-- ===== src/Services/Accounts.antt =====
-- server/services/accountService.go: the endpoints /account/balance and /account/coins.
use rosetta_images.Base.{
  ℕ, Bool, true, false, Option, none, some, List, [], ◌∷◌, Bytes, Result, ok, err, map_err, codes,
  ◌>>=◌, ◌==◌, ◌>>◌, bytes_eq,
}
use rosetta_images.Rosetta.{
  AccountBalanceResponse, AccountIdentifier, ApiError, Currency, ObjectsMap, number,
}
use rosetta_images.Resources.{AccountBalanceOnBlock}
use rosetta_images.Services.Interface.{NetworkProvider}
use rosetta_images.Services.Errors.{
  err_invalid_account_address, err_not_implemented, err_unable_to_get_account, new_err,
  new_err_factory, new_err_with_original,
}
use rosetta_images.Services.Converters.{
  PartialBlockIdentifier, account_block_coordinates_to_identifier,
  block_identifier_to_account_query_options,
}
use rosetta_images.Services.Extension.{value_to_amount}

-- types.AccountBalanceRequest; a `BlockIdentifier` that is nil is `none`
pub record AccountBalanceRequest : Type 0 where
  pub account_identifier : AccountIdentifier
  pub block_identifier : Option PartialBlockIdentifier
  pub currencies : List Currency

abbrev pub fails_if : Bool → ApiError → Result ApiError (Unit {0})
fails_if true e = err e
fails_if false e = ok tt

-- "nonce" is present only for the native currency.
abbrev pub balance_metadata : Option ℕ → ObjectsMap
balance_metadata none = []
balance_metadata (some nonce) = (codes "nonce", number nonce) ∷ []

module _ (provider : NetworkProvider) where
  unfoldable pub get_native_symbol : Bytes
  get_native_symbol = provider.get_native_currency.symbol

  -- One currency can be asked for; none means the native one.
  abbrev pub requested_symbol : List Currency → Result ApiError Bytes
  requested_symbol [] = ok get_native_symbol
  requested_symbol (currency ∷ []) = ok currency.symbol
  requested_symbol (_ ∷ _ ∷ _) = err (new_err new_err_factory err_not_implemented)

  abbrev pub balance_response : Bytes → AccountBalanceOnBlock → AccountBalanceResponse
  balance_response currency_symbol account_balance_on_block = record {
    block_identifier =
        account_block_coordinates_to_identifier account_balance_on_block.block_coordinates;
    balances = value_to_amount provider account_balance_on_block.balance currency_symbol ∷ [];
    metadata = balance_metadata account_balance_on_block.nonce;
  }

  unfoldable pub do_get_account_balance :
      AccountBalanceRequest → Result ApiError AccountBalanceResponse
  do_get_account_balance request = do
    options ←
        map_err (new_err_with_original new_err_factory err_unable_to_get_account)
          (block_identifier_to_account_query_options request.block_identifier)
    fails_if (request.account_identifier.address == [])
        (new_err new_err_factory err_invalid_account_address)
    currency_symbol ← requested_symbol request.currencies
    account_balance_on_block ←
        map_err (new_err_with_original new_err_factory err_unable_to_get_account)
          (provider.get_account_balance request.account_identifier.address currency_symbol options)
    ok (balance_response currency_symbol account_balance_on_block)

unfoldable pub account_coins : ApiError
account_coins = new_err new_err_factory err_not_implemented
