-- ===== src/Services/Construction.antt =====
-- server/services/constructionService.go: from operations to a transaction and back, between the
-- reading and the writing of the object maps and of JSON.
pub mod TransferData
pub mod Intent
pub mod RoundTrip
pub mod Answers
use rosetta_images.Base.{
  ℕ, Bool, Option, none, some, List, [], ◌∷◌, ◌++◌, Bytes, codes, Result, ok, err, ◌>>=◌, ◌>>◌,
  map_err, is_empty, not, if◌then◌else◌,
}
use rosetta_images.Text.Decimal.{format}
use rosetta_images.Text.Hex.{hex_decode}
use rosetta_images.Text.Split.{split, has_prefix}
use rosetta_images.Failure.{Failure, message}
use rosetta_images.Api.{PreparedTx, Libraries}
use rosetta_images.Rosetta.{Operation, Amount, ApiError}
use rosetta_images.Resources.{AccountOnBlock}
use rosetta_images.Services.Interface.{NetworkProvider}
use rosetta_images.Services.Constants.{amount_zero, transaction_version}
use rosetta_images.Services.OpTypes
use rosetta_images.Services.Common.{get_magnitude_of_amount}
use rosetta_images.Services.Converters.{string_to_hex, amount_to_hex, hex_to_amount}
use rosetta_images.Services.Extension.{
  is_native_currency_symbol, value_to_custom_amount, value_to_native_amount,
}
use rosetta_images.Services.Errors.{
  ErrFactory, new_err, new_err_with_original, err_construction, err_offline_mode, err_construction,
  err_unable_to_get_account,
}
use rosetta_images.Services.Options.{
  ConstructionOptions, ConstructionMetadata, validate_options, validate_metadata,
}
use rosetta_images.Services.Fees.{compute_fee_components}
use rosetta_images.Services.Operations.{new_operation, index_operations}

-- constructionPreprocessMetadata has the fields of the options.
abbrev pub ConstructionPreprocessMetadata : Type 0
ConstructionPreprocessMetadata = ConstructionOptions

-- A field of the metadata if it is set, or else the fallback.
abbrev given_or : Bytes → Result Failure Bytes → Result Failure Bytes
given_or [] fallback = fallback
given_or (c ∷ s) fallback = ok (c ∷ s)

abbrev from_first : Bytes → (Operation → Bytes) → List Operation → Result Failure Bytes
from_first text field [] = err (message text)
from_first text field (operation ∷ _) = ok (field operation)

abbrev from_second : Bytes → (Operation → Bytes) → List Operation → Result Failure Bytes
from_second text field (_ ∷ operation ∷ _) = ok (field operation)
from_second text field _ = err (message text)

-- The options of the response, before an error is wrapped.
unfoldable pub preprocessed_options :
    NetworkProvider
    → ConstructionPreprocessMetadata
    → List Operation
    → Result Failure ConstructionOptions
preprocessed_options provider given operations = do
  sender ← given_or given.sender (
      from_first (codes "cannot prepare sender") (λ operation. operation.account.address)
        operations)
  receiver ← given_or given.receiver (
      from_second (codes "cannot prepare receiver") (λ operation. operation.account.address)
        operations)
  amount ← given_or given.amount (
      from_first (codes "cannot prepare amount")
        (λ operation. get_magnitude_of_amount operation.amount.value) operations)
  currency_symbol ← given_or given.currency_symbol (
      from_first (codes "cannot prepare currency") (λ operation. operation.amount.currency.symbol)
        operations)
  let options : ConstructionOptions = record {
    sender = sender;
    receiver = receiver;
    amount = amount;
    currency_symbol = currency_symbol;
    gas_limit = given.gas_limit;
    gas_price = given.gas_price;
    tx_data = given.tx_data;
  }
  validate_options options provider.get_native_currency.symbol >> ok options

unfoldable pub prepared_options :
    ErrFactory
    → NetworkProvider
    → ConstructionPreprocessMetadata
    → List Operation
    → Result ApiError ConstructionOptions
prepared_options factory provider given operations =
    map_err (λ e. new_err_with_original factory err_construction e)
      (preprocessed_options provider given operations)

unfoldable pub to_transaction : ConstructionMetadata → Result Failure PreparedTx
to_transaction metadata =
    validate_metadata metadata
    >> ok (record {
      signature = [];
      sender = metadata.sender;
      receiver = metadata.receiver;
      nonce = metadata.nonce;
      value = metadata.amount;
      gas_limit = metadata.gas_limit;
      gas_price = metadata.gas_price;
      tx_data = metadata.tx_data;
      chain_id = metadata.chain_id;
      version = metadata.version;
    })

abbrev token_and_amount : Bytes → Option Bytes → Result Failure (Bytes × Bytes)
token_and_amount amount none = err (message (codes "cannot decode custom token identifier"))
token_and_amount amount (some token) = do
  decoded ←
      map_err (λ e. message (codes "cannot decode custom token amount")) (hex_to_amount amount)
  ok (token, decoded)

abbrev of_parts : List Bytes → Result Failure (Bytes × Bytes)
of_parts (_ ∷ token ∷ amount ∷ []) = token_and_amount amount (hex_decode token)
of_parts _ = err (message (codes "cannot parse data of custom currency transfer"))

unfoldable pub parse_custom_currency_transfer : Bytes → Result Failure (Bytes × Bytes)
parse_custom_currency_transfer tx_data = of_parts (split tx_data b'@')

module _ ⦃lib : Libraries⦄ where
  unfoldable pub compute_data_for_custom_currency_transfer : Bytes → Bytes → Bytes
  compute_data_for_custom_currency_transfer token_identifier amount =
      lib.builtin_esdt_transfer
      ++ b'@' ∷ (string_to_hex token_identifier ++ b'@' ∷ amount_to_hex amount)

  unfoldable pub is_custom_currency_transfer : Bytes → Bool
  is_custom_currency_transfer tx_data = has_prefix tx_data lib.builtin_esdt_transfer

module _ ⦃lib : Libraries⦄ (provider : NetworkProvider) where
  abbrev custom_operations : PreparedTx → Bytes × Bytes → List Operation
  custom_operations tx (token_identifier, amount) =
      new_operation OpTypes.custom_transfer tx.sender
        (value_to_custom_amount provider (b'-' ∷ amount) token_identifier)
      ∷ new_operation OpTypes.custom_transfer tx.receiver
          (value_to_custom_amount provider amount token_identifier)
      ∷ []

  abbrev native_operations : PreparedTx → List Operation
  native_operations tx =
      new_operation OpTypes.transfer tx.sender (value_to_native_amount provider (b'-' ∷ tx.value))
      ∷ new_operation OpTypes.transfer tx.receiver (value_to_native_amount provider tx.value)
      ∷ []

  unfoldable pub create_operations_from_prepared_tx : PreparedTx → Result Failure (List Operation)
  create_operations_from_prepared_tx tx =
      if is_custom_currency_transfer tx.tx_data
      then (do
        parsed ← parse_custom_currency_transfer tx.tx_data
        ok (index_operations (custom_operations tx parsed)))
      else ok (index_operations (native_operations tx))

  abbrev amount_of : ConstructionOptions → Bytes
  amount_of options =
      if is_native_currency_symbol provider options.currency_symbol
      then options.amount
      else amount_zero

  abbrev data_of : ConstructionOptions → Bytes
  data_of options =
      if is_native_currency_symbol provider options.currency_symbol
      then options.tx_data
      else compute_data_for_custom_currency_transfer options.currency_symbol options.amount

  -- The metadata of the response, before it becomes a map, and the suggested fee.
  unfoldable pub prepared_metadata :
      ErrFactory → ConstructionOptions → Result ApiError (ConstructionMetadata × Amount)
  prepared_metadata factory options = do
    account ←
        map_err (λ e. new_err_with_original factory err_unable_to_get_account e)
          (provider.get_account options.sender)
    let tx_data = data_of options
    components ← compute_fee_components provider factory options tx_data
    ok (
      record {
        sender = options.sender;
        receiver = options.receiver;
        nonce = account.account.nonce;
        amount = amount_of options;
        currency_symbol = options.currency_symbol;
        gas_limit = components.1;
        gas_price = components.2;
        tx_data = tx_data;
        chain_id = provider.get_network_config.network_id;
        version = transaction_version;
      },
      value_to_native_amount provider (format components.0),
    )
