-- ===== src/Services/Fees.antt =====
-- server/services/constructionServiceFee.go. Gas is a uint64, a fee a `big.Int`.
pub mod Bounds
pub mod MoveBalance
use rosetta_images.Base.{
  ℕ, ◌+◌, ◌*◌, ◌%◌, ◌^◌, Bool, not, Bytes, Result, ok, err, ltb, if◌then◌else◌, length,
}
use rosetta_images.Rosetta.{ApiError}
use rosetta_images.Services.Interface.{NetworkProvider}
use rosetta_images.Services.Common.{multiply_uint64, add_big_int}
use rosetta_images.Services.Extension.{is_native_currency_symbol}
use rosetta_images.Services.Errors.{
  ErrFactory, new_err, err_insufficient_gas_limit, err_gas_price_too_low,
}
use rosetta_images.Services.Options.{ConstructionOptions, coalesce_gas_limit, coalesce_gas_price}

-- `execution_gas_price` stands for the product with the modifier, a float64.
unfoldable pub compute_fee : ℕ → ℕ → ℕ → (ℕ → ℕ) → ℕ
compute_fee movement_gas_limit execution_gas_limit gas_price execution_gas_price =
    add_big_int (multiply_uint64 movement_gas_limit gas_price)
      (multiply_uint64 execution_gas_limit (execution_gas_price gas_price))

module _ (provider : NetworkProvider) where
  unfoldable pub movement_gas_limit : Bytes → ℕ
  movement_gas_limit computed_data =
      (provider.get_network_config.min_gas_limit
        + (provider.get_network_config.gas_per_data_byte * length computed_data) % 2 ^ 64)
      % 2 ^ 64

  unfoldable pub execution_gas_limit : Bytes → ℕ
  execution_gas_limit currency_symbol =
      if not (is_native_currency_symbol provider currency_symbol)
      then provider.get_network_config.gas_limit_custom_transfer
      else 0

  unfoldable pub estimated_gas_limit : ConstructionOptions → Bytes → ℕ
  estimated_gas_limit options computed_data =
      (movement_gas_limit computed_data + execution_gas_limit options.currency_symbol) % 2 ^ 64

  -- The fee, the gas limit and the gas price.
  unfoldable pub compute_fee_components :
      ErrFactory → ConstructionOptions → Bytes → Result ApiError (ℕ × ℕ × ℕ)
  compute_fee_components factory options computed_data =
      let config = provider.get_network_config in
      let estimated = estimated_gas_limit options computed_data in
      let gas_limit = coalesce_gas_limit options estimated in
      let gas_price = coalesce_gas_price options config.min_gas_price in
      if ltb gas_limit estimated
      then err (new_err factory err_insufficient_gas_limit)
      else if ltb gas_price config.min_gas_price
      then err (new_err factory err_gas_price_too_low)
      else ok (
        compute_fee (movement_gas_limit computed_data) (execution_gas_limit options.currency_symbol)
            gas_price config.execution_gas_price,
        gas_limit,
        gas_price,
      )
