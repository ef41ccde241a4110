-- ===== src/Services/Construction/Answers.antt =====
-- server/services/constructionService.go: what each step gives for a transfer of a token.
use rosetta_images.Base.{
  [], ℕ, ◌≡◌, ◌≢◌, refl, false, true, ◌∷◌, arith, Bytes, ok, is_empty, ltb, ◌==◌, nat_eq,
}
use rosetta_images.Text.Decimal.{format, format-IsDecimal, value-format}
use rosetta_images.Api.{PreparedTx, Libraries}
use rosetta_images.Rosetta.{Amount}
use rosetta_images.Resources.{AccountOnBlock}
use rosetta_images.Services.Interface.{NetworkProvider}
use rosetta_images.Services.Common.{is_zero_amount, is_zero_amount-value}
use rosetta_images.Services.Extension.{
  is_native_currency_symbol, value_to_custom_amount, value_to_native_amount,
}
use rosetta_images.Services.Errors.{ErrFactory}
use rosetta_images.Services.Options.{
  ConstructionOptions, ConstructionMetadata, validate_options, validate_metadata,
  coalesce_gas_limit, coalesce_gas_price,
}
use rosetta_images.Services.Constants.{amount_zero, transaction_version}
use rosetta_images.Services.Fees.{
  compute_fee, movement_gas_limit, execution_gas_limit, estimated_gas_limit, compute_fee_components,
}
use rosetta_images.Services.Operations.{index_operations}
use rosetta_images.Services.Construction.{
  preprocessed_options, prepared_options, prepared_metadata, to_transaction,
  compute_data_for_custom_currency_transfer,
}
use rosetta_images.Services.Construction.Intent.{transfer_of_token}
use rosetta_images.Services.Construction.RoundTrip.{
  no_metadata, KeepsSymbol, symbol-value_to_custom_amount, get_magnitude_of_amount-minus,
}

-- The options that stand for a transfer of a token.
abbrev pub asked_options : (sender receiver token amount : Bytes) → ConstructionOptions
asked_options sender receiver token amount = record no_metadata {
  sender = sender;
  receiver = receiver;
  amount = amount;
  currency_symbol = token;
}

is_zero_amount-format : (n : ℕ) → n ≢ 0 → is_zero_amount (format n) ≡ false
is_zero_amount-format n h =
    rw (is_zero_amount-value (format n) (format-IsDecimal n))
      (rw (value-format n) (ground (arith, h)))

value-minus :
    (provider : NetworkProvider) (n : ℕ) (token : Bytes)
    → (value_to_custom_amount provider (b'-' ∷ format n) token).value ≡ b'-' ∷ format n
unfolding value_to_custom_amount
value-minus provider n token = refl

pub preprocess_answers :
    (factory : ErrFactory) (provider : NetworkProvider) (sender receiver token : Bytes) (n : ℕ)
    → is_empty sender ≡ false
    → is_empty receiver ≡ false
    → is_empty token ≡ false
    → n ≢ 0
    → KeepsSymbol provider token
    → prepared_options factory provider no_metadata
        (transfer_of_token provider sender receiver token (format n))
      ≡ ok (asked_options sender receiver token (format n))
unfolding prepared_options preprocessed_options index_operations validate_options
preprocess_answers factory provider sender receiver token n hs hr ht hn keeps =
    rw
      (
        value-minus provider n token,
        get_magnitude_of_amount-minus (format n) (format-IsDecimal n),
        symbol-value_to_custom_amount provider (b'-' ∷ format n) token keeps,
        hs,
        hr,
        is_zero_amount-format n hn,
        ht,
      )
      refl

ltb_irrefl : (n : ℕ) → ltb n n ≡ false
ltb_irrefl n = ground arith

fee_answers :
    (provider : NetworkProvider) (factory : ErrFactory)
    (sender receiver token amount computed : Bytes)
    → (fee : ℕ) × (compute_fee_components provider factory
          (asked_options sender receiver token amount)
          computed
        ≡ ok (
          fee,
          estimated_gas_limit provider (asked_options sender receiver token amount) computed,
          provider.get_network_config.min_gas_price,
        ))
unfolding compute_fee_components coalesce_gas_limit coalesce_gas_price
fee_answers provider factory sender receiver token amount computed = (
  compute_fee (movement_gas_limit provider computed) (execution_gas_limit provider token)
      provider.get_network_config.min_gas_price provider.get_network_config.execution_gas_price,
  rw
      (
        ltb_irrefl
            (estimated_gas_limit provider (asked_options sender receiver token amount) computed),
        ltb_irrefl provider.get_network_config.min_gas_price,
      )
      refl,
)

abbrev pub estimate :
    ⦃lib : Libraries⦄ → NetworkProvider → (sender receiver token amount : Bytes) → ℕ
estimate provider sender receiver token amount =
    estimated_gas_limit provider (asked_options sender receiver token amount)
      (compute_data_for_custom_currency_transfer token amount)

-- The metadata of the transfer.
abbrev pub asked_metadata :
    ⦃lib : Libraries⦄
    → NetworkProvider
    → AccountOnBlock
    → (sender receiver token amount : Bytes) → ConstructionMetadata
asked_metadata provider account sender receiver token amount = record {
  sender = sender;
  receiver = receiver;
  nonce = account.account.nonce;
  amount = amount_zero;
  currency_symbol = token;
  gas_limit = estimate provider sender receiver token amount;
  gas_price = provider.get_network_config.min_gas_price;
  tx_data = compute_data_for_custom_currency_transfer token amount;
  chain_id = provider.get_network_config.network_id;
  version = transaction_version;
}

pub metadata_answers :
    ⦃lib : Libraries⦄ (provider : NetworkProvider) (factory : ErrFactory)
    (sender receiver token amount : Bytes) (account : AccountOnBlock)
    → provider.get_account sender ≡ ok account
    → is_native_currency_symbol provider token ≡ false
    → (suggested : Amount) × (prepared_metadata provider factory
          (asked_options sender receiver token amount)
        ≡ ok (asked_metadata provider account sender receiver token amount, suggested))
unfolding prepared_metadata
metadata_answers provider factory sender receiver token amount account found custom =
    let (fee, h) =
      fee_answers provider factory sender receiver token amount
        (compute_data_for_custom_currency_transfer token amount) in
    (value_to_native_amount provider (format fee), rw (custom, found, h) refl)

-- The transaction of metadata.
abbrev pub tx_of : ConstructionMetadata → PreparedTx
tx_of metadata = record {
  sender = metadata.sender;
  receiver = metadata.receiver;
  nonce = metadata.nonce;
  value = metadata.amount;
  gas_limit = metadata.gas_limit;
  gas_price = metadata.gas_price;
  tx_data = metadata.tx_data;
  signature = [];
  chain_id = metadata.chain_id;
  version = metadata.version;
}

pub tx_answers :
    (metadata : ConstructionMetadata)
    → is_empty metadata.sender ≡ false
    → is_empty metadata.receiver ≡ false
    → metadata.gas_limit ≢ 0
    → metadata.gas_price ≢ 0
    → metadata.version ≡ 1
    → is_empty metadata.chain_id ≡ false
    → to_transaction metadata ≡ ok (tx_of metadata)
unfolding to_transaction validate_metadata
tx_answers metadata hs hr hl hp hv hc =
    rw (hs, hr, not-zero metadata.gas_limit hl, not-zero metadata.gas_price hp, version_one, hc)
      refl
  where
    not-zero : (n : ℕ) → n ≢ 0 → (n == 0) ≡ false
    not-zero n h = ground (arith, h)

    version_one : (metadata.version == 1) ≡ true
    version_one = ground (arith, hv)
