-- ===== src/Services/Extension.antt =====
-- server/services/networkProviderExtension.go
use rosetta_images.Base.{
  Bool, false, not, Option, none, some, Bytes, Result, ok, err, ◌==◌, bytes_eq, nat_eq, ◌&&◌,
  if◌then◌else◌,
}
use rosetta_images.Failure.{Failure}
use rosetta_images.Api.{Libraries}
use rosetta_images.Rosetta.{Currency, Amount, BlockIdentifier}
use rosetta_images.Services.Interface.{NetworkProvider}
use rosetta_images.Services.Converters.{block_summary_to_identifier}

module _ (provider : NetworkProvider) where
  unfoldable pub value_to_native_amount : Bytes → Amount
  value_to_native_amount value = record { value = value; currency = provider.get_native_currency }

  -- An unknown symbol gives a currency without decimals.
  abbrev pub custom_currency : Bytes → Option Currency → Currency
  custom_currency symbol (some currency) = currency
  custom_currency symbol none = record { symbol = symbol; decimals = 0 }

  unfoldable pub value_to_custom_amount : Bytes → Bytes → Amount
  value_to_custom_amount value symbol = record {
    value = value;
    currency = custom_currency symbol (provider.get_custom_currency_by_symbol symbol);
  }

  unfoldable pub is_native_currency_symbol : Bytes → Bool
  is_native_currency_symbol symbol = symbol == provider.get_native_currency.symbol

  unfoldable pub value_to_amount : Bytes → Bytes → Amount
  value_to_amount value symbol =
      if is_native_currency_symbol symbol
      then value_to_native_amount value
      else value_to_custom_amount value symbol

  unfoldable pub is_native_currency : Currency → Bool
  is_native_currency currency =
      let native = provider.get_native_currency in
      currency.symbol == native.symbol && currency.decimals == native.decimals

  unfoldable pub get_genesis_block_identifier : BlockIdentifier
  get_genesis_block_identifier = block_summary_to_identifier provider.get_genesis_block_summary

module _ ⦃lib : Libraries⦄ (provider : NetworkProvider) where
  unfoldable pub is_user_pub_key : Bytes → Bool
  is_user_pub_key pub_key = not (lib.is_smart_contract_address pub_key)

  abbrev is_user_of : Result Failure Bytes → Bool
  is_user_of (err e) = false
  is_user_of (ok pub_key) = not (lib.is_smart_contract_address pub_key)

  unfoldable pub is_user_address : Bytes → Bool
  is_user_address address = is_user_of (provider.convert_address_to_pub_key address)

  unfoldable pub is_contract_address : Bytes → Bool
  unfolding is_user_address
  is_contract_address address = not (is_user_address address)
