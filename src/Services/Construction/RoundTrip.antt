-- ===== src/Services/Construction/RoundTrip.antt =====
-- server/services/constructionService.go: the whole flow, from the operations that a caller submits
-- to `/construction/preprocess` to those that `/construction/parse` reports.
use rosetta_images.Base.{
  ℕ, ◌≡◌, refl, sym, subst, false, none, some, [], ◌∷◌, arith, Bytes, ok, >>=-eq-ok, ok-injective,
  ok-of_map_err, Option-cases, ◌⊎◌, inl, inr,
}
use rosetta_images.Text.Decimal.{IsDecimal, AllDigits, format, format-IsDecimal, value-format}
use rosetta_images.Text.Hex.{AllBytes}
use rosetta_images.Text.Split.{Lacks, trim-cons}
use rosetta_images.Api.{PreparedTx, Libraries}
use rosetta_images.Rosetta.{Amount, Currency}
use rosetta_images.Services.Interface.{NetworkProvider}
use rosetta_images.Services.Common.{get_magnitude_of_amount}
use rosetta_images.Services.Extension.{is_native_currency_symbol, value_to_custom_amount}
use rosetta_images.Services.Errors.{ErrFactory}
use rosetta_images.Services.Options.{ConstructionOptions, ConstructionMetadata, validate_options}
use rosetta_images.Services.Operations.{index_operations}
use rosetta_images.Services.Construction.{
  preprocessed_options, prepared_options, prepared_metadata, to_transaction,
  create_operations_from_prepared_tx,
}
use rosetta_images.Services.Construction.Intent.{
  transfer_of_token, create_operations-prepared_metadata,
}

-- A request without metadata.
abbrev pub no_metadata : ConstructionOptions
no_metadata = record {
  sender = [];
  receiver = [];
  amount = [];
  currency_symbol = [];
  gas_limit = 0;
  gas_price = 0;
  tx_data = [];
}

digits-Lacks-minus : (s : Bytes) → AllDigits s → Lacks b'-' s
digits-Lacks-minus [] h = tt
digits-Lacks-minus (c ∷ s) (hc, h) = (ground (arith, hc), digits-Lacks-minus s h)

pub get_magnitude_of_amount-minus :
    (s : Bytes) → IsDecimal s → get_magnitude_of_amount (b'-' ∷ s) ≡ s
unfolding get_magnitude_of_amount
get_magnitude_of_amount-minus [] h = absurd h
get_magnitude_of_amount-minus (c ∷ s) h = trim-cons (c ∷ s) b'-' (digits-Lacks-minus (c ∷ s) h)

-- The provider answers a symbol with a currency of this symbol.
abbrev pub KeepsSymbol : NetworkProvider → Bytes → Type 0
KeepsSymbol provider token =
    (currency : Currency)
    → provider.get_custom_currency_by_symbol token ≡ some currency
    → currency.symbol ≡ token

pub symbol-value_to_custom_amount :
    (provider : NetworkProvider) (amount token : Bytes)
    → KeepsSymbol provider token
    → (value_to_custom_amount provider amount token).currency.symbol ≡ token
unfolding value_to_custom_amount
symbol-value_to_custom_amount provider amount token keeps =
    by_cases (Option-cases (provider.get_custom_currency_by_symbol token))
  where
    by_cases :
        (provider.get_custom_currency_by_symbol token ≡ none)
          ⊎ ((c : Currency) × (provider.get_custom_currency_by_symbol token ≡ some c))
        → (value_to_custom_amount provider amount token).currency.symbol ≡ token
    by_cases (inl e) = rw e refl
    by_cases (inr (c, e)) = rw e (keeps c e)

module _ (provider : NetworkProvider) (sender receiver token amount : Bytes) where
  -- The options that stand for the transfer.
  abbrev Asks : ConstructionOptions → Type 0
  Asks options =
      (options.sender ≡ sender)
      × (options.receiver ≡ receiver)
      × (options.amount ≡ amount)
      × (options.currency_symbol ≡ token)

  preprocessed_options-Asks :
      (options : ConstructionOptions)
      → IsDecimal amount
      → KeepsSymbol provider token
      → preprocessed_options provider no_metadata
          (transfer_of_token provider sender receiver token amount)
        ≡ ok options
      → Asks options
  unfolding preprocessed_options index_operations value_to_custom_amount
  preprocessed_options-Asks options ha keeps h =
      let (_, _, h1) = >>=-eq-ok (validate_options _ _) _ h in
      subst Asks (ok-injective h1) (
        refl,
        refl,
        get_magnitude_of_amount-minus amount ha,
        symbol-value_to_custom_amount provider (b'-' ∷ amount) token keeps,
      )

-- A caller asks, without metadata, for a transfer of `n` units of a token that is not the native
-- currency. If the service answers at each step, `/construction/parse` reports the very operations
-- that the caller asked for, from the transaction of the last step. (The token is bytes, the
-- provider keeps its symbol, and the name of the built-in function has no separator.)
pub construction_round_trip :
    ⦃lib : Libraries⦄ (provider : NetworkProvider) (factory : ErrFactory)
    (sender receiver token : Bytes) (n : ℕ) (options : ConstructionOptions)
    (metadata : ConstructionMetadata) (suggested : Amount) (tx : PreparedTx)
    → Lacks b'@' lib.builtin_esdt_transfer
    → AllBytes token
    → KeepsSymbol provider token
    → is_native_currency_symbol provider token ≡ false
    → prepared_options factory provider no_metadata
        (transfer_of_token provider sender receiver token (format n))
      ≡ ok options
    → prepared_metadata provider factory options ≡ ok (metadata, suggested)
    → to_transaction metadata ≡ ok tx
    → create_operations_from_prepared_tx provider tx
      ≡ ok (transfer_of_token provider sender receiver token (format n))
unfolding prepared_options
construction_round_trip provider factory sender receiver token n options metadata suggested tx hl ht
      keeps custom h k l =
    let (from, to, amount, symbol) =
      preprocessed_options-Asks provider sender receiver token (format n) options
        (format-IsDecimal n) keeps (ok-of_map_err _ _ h) in
    let (_, parsed) =
      create_operations-prepared_metadata provider factory options metadata suggested tx hl
        (rw (sym symbol) at ht) (rw (sym amount) at (format-IsDecimal n))
        (rw (sym symbol) at custom) k l in
    rw (from, to, symbol, amount, value-format n) at parsed
