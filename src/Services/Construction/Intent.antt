-- ===== src/Services/Construction/Intent.antt =====
-- server/services/constructionService.go: the transaction that the service constructs says what the
-- caller asked for.
use rosetta_images.Base.{
  ◌≡◌, refl, sym, ap, ◌∙◌, subst, true, false, List, [], ◌∷◌, Bytes, ok, >>=-eq-ok, ok-injective,
  map_err, if◌then◌else◌,
}
use rosetta_images.Text.Decimal.{IsDecimal, value, format}
use rosetta_images.Text.Hex.{AllBytes}
use rosetta_images.Text.Split.{Lacks, has_prefix-append}
use rosetta_images.Api.{PreparedTx, Libraries}
use rosetta_images.Rosetta.{Operation, Amount}
use rosetta_images.Services.Interface.{NetworkProvider}
use rosetta_images.Services.Constants.{amount_zero}
use rosetta_images.Services.OpTypes
use rosetta_images.Services.Extension.{is_native_currency_symbol, value_to_custom_amount}
use rosetta_images.Services.Errors.{ErrFactory}
use rosetta_images.Services.Options.{ConstructionOptions, ConstructionMetadata, validate_metadata}
use rosetta_images.Services.Fees.{compute_fee_components}
use rosetta_images.Services.Operations.{new_operation, index_operations}
use rosetta_images.Services.Construction.{
  to_transaction, prepared_metadata, create_operations_from_prepared_tx, data_of, amount_of,
  is_custom_currency_transfer, compute_data_for_custom_currency_transfer,
}
use rosetta_images.Services.Construction.TransferData.{
  parse_custom_currency_transfer-compute_data_for_custom_currency_transfer,
}

module _ ⦃lib : Libraries⦄ (provider : NetworkProvider) (factory : ErrFactory)
    (options : ConstructionOptions) where
  -- What the metadata takes from the options.
  abbrev Carries : Bytes → Bytes → Bytes → Bytes → Type 0
  Carries sender receiver amount tx_data =
      (sender ≡ options.sender)
      × (receiver ≡ options.receiver)
      × (amount ≡ amount_of provider options)
      × (tx_data ≡ data_of provider options)

  prepared_metadata-Carries :
      (metadata : ConstructionMetadata) (suggested : Amount)
      → prepared_metadata provider factory options ≡ ok (metadata, suggested)
      → Carries metadata.sender metadata.receiver metadata.amount metadata.tx_data
  unfolding prepared_metadata
  prepared_metadata-Carries metadata suggested h =
      let (account, _, h2) = >>=-eq-ok (map_err _ (provider.get_account options.sender)) _ h in
      let (components, _, h3) =
        >>=-eq-ok (compute_fee_components provider factory options _) _ h2 in
      subst
        (λ (t : ConstructionMetadata × Amount).
          Carries t.0.sender t.0.receiver t.0.amount t.0.tx_data)
        (ok-injective h3) (refl, refl, refl, refl)

  to_transaction-Carries :
      (metadata : ConstructionMetadata) (tx : PreparedTx)
      → Carries metadata.sender metadata.receiver metadata.amount metadata.tx_data
      → to_transaction metadata ≡ ok tx
      → Carries tx.sender tx.receiver tx.value tx.tx_data
  unfolding to_transaction
  to_transaction-Carries metadata tx carries h =
      let (_, _, h1) = >>=-eq-ok (validate_metadata metadata) _ h in
      subst (λ (t : PreparedTx). Carries t.sender t.receiver t.value t.tx_data) (ok-injective h1)
        carries

-- The operations of a transfer of a token.
abbrev pub transfer_of_token :
    NetworkProvider → (sender receiver token amount : Bytes) → List Operation
transfer_of_token provider sender receiver token amount = index_operations (
    new_operation OpTypes.custom_transfer sender
      (value_to_custom_amount provider (b'-' ∷ amount) token)
    ∷ new_operation OpTypes.custom_transfer receiver (value_to_custom_amount provider amount token)
    ∷ [])

is_transfer :
    ⦃lib : Libraries⦄ (token amount : Bytes)
    → is_custom_currency_transfer (compute_data_for_custom_currency_transfer token amount) ≡ true
unfolding is_custom_currency_transfer compute_data_for_custom_currency_transfer
is_transfer ⦃lib⦄ token amount = has_prefix-append lib.builtin_esdt_transfer _

operations_of_transfer :
    ⦃lib : Libraries⦄ (provider : NetworkProvider) (tx : PreparedTx) (token amount : Bytes)
    → Lacks b'@' lib.builtin_esdt_transfer
    → AllBytes token
    → IsDecimal amount
    → tx.tx_data ≡ compute_data_for_custom_currency_transfer token amount
    → create_operations_from_prepared_tx provider tx
      ≡ ok (transfer_of_token provider tx.sender tx.receiver token (format (value 0 amount)))
unfolding create_operations_from_prepared_tx
operations_of_transfer ⦃lib⦄ provider tx token amount hl ht ha e =
    rw
      (
        e,
        is_transfer token amount,
        parse_custom_currency_transfer-compute_data_for_custom_currency_transfer token amount hl ht
            ha,
      )
      refl

-- For a transfer of a currency other than the native one, the transaction that the options give,
-- through the metadata, moves no native value; and parsing it gives the two operations of a
-- transfer of the amount of that currency from the sender to the receiver. (The amount is a
-- decimal text, the currency's symbol is bytes, and the name of the function has no separator.)
pub create_operations-prepared_metadata :
    ⦃lib : Libraries⦄ (provider : NetworkProvider) (factory : ErrFactory)
    (options : ConstructionOptions) (metadata : ConstructionMetadata) (suggested : Amount)
    (tx : PreparedTx)
    → Lacks b'@' lib.builtin_esdt_transfer
    → AllBytes options.currency_symbol
    → IsDecimal options.amount
    → is_native_currency_symbol provider options.currency_symbol ≡ false
    → prepared_metadata provider factory options ≡ ok (metadata, suggested)
    → to_transaction metadata ≡ ok tx
    → (tx.value ≡ amount_zero)
      × (create_operations_from_prepared_tx provider tx
          ≡ ok (
              transfer_of_token provider options.sender options.receiver options.currency_symbol
                (format (value 0 options.amount))))
create_operations-prepared_metadata provider factory options metadata suggested tx hl ht ha custom h
      k =
    let carried = prepared_metadata-Carries provider factory options metadata suggested h in
    let (sender, receiver, amount, tx_data) =
      to_transaction-Carries provider factory options metadata tx carried k in
    (
      amount ∙ ap (λ b. if b then options.amount else amount_zero) custom,
      rw (sym sender) (
          rw (sym receiver) (
            operations_of_transfer provider tx options.currency_symbol options.amount hl ht ha (
              tx_data
              ∙ ap
                  (λ b.
                    if b
                    then options.tx_data
                    else compute_data_for_custom_currency_transfer options.currency_symbol
                        options.amount)
                  custom))),
    )
