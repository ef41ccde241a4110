-- ===== src/Services/Fees/MoveBalance.antt =====
-- server/services/constructionServiceFee.go against server/provider/networkProvider.go: two routines
-- that compute the fee of a move of the native currency.
use rosetta_images.Base.{ℕ, ◌≡◌, ap, true, false, [], arith, ok, ltb, guard-eq-ok, ok-injective}
use rosetta_images.Api.{ApiTransaction}
use rosetta_images.Provider.RelayedV3.{is_relayed_tx_v3}
use rosetta_images.Provider.MoveBalance.{compute_transaction_fee_for_move_balance}
use rosetta_images.Services.Interface.{NetworkProvider}
use rosetta_images.Services.Common.{multiply_uint64, add_big_int}
use rosetta_images.Services.Extension.{is_native_currency_symbol}
use rosetta_images.Services.Errors.{
  ErrFactory, new_err, err_insufficient_gas_limit, err_gas_price_too_low,
}
use rosetta_images.Services.Options.{ConstructionOptions, coalesce_gas_price, coalesce_gas_limit}
use rosetta_images.Services.Fees.{
  compute_fee, estimated_gas_limit, movement_gas_limit, execution_gas_limit, compute_fee_components,
}

-- For the native currency, the fee that the construction service suggests is the fee that the
-- provider computes for a transaction with the same data and gas price that is neither guarded nor
-- relayed.
pub compute_fee_components-compute_transaction_fee_for_move_balance :
    (provider : NetworkProvider) (factory : ErrFactory) (options : ConstructionOptions)
    (tx : ApiTransaction) (fee gas_limit : ℕ)
    → is_native_currency_symbol provider options.currency_symbol ≡ true
    → tx.guardian_addr ≡ []
    → is_relayed_tx_v3 tx ≡ false
    → compute_fee_components provider factory options tx.tx_data ≡ ok (fee, gas_limit, tx.gas_price)
    → fee ≡ compute_transaction_fee_for_move_balance provider.get_network_config tx
unfolding compute_fee_components compute_fee movement_gas_limit execution_gas_limit multiply_uint64
    add_big_int compute_transaction_fee_for_move_balance
compute_fee_components-compute_transaction_fee_for_move_balance provider factory options tx fee
      gas_limit native unguarded direct h =
    let estimated = estimated_gas_limit provider options tx.tx_data in
    let (_, h1) =
      guard-eq-ok (ltb (coalesce_gas_limit options estimated) estimated)
        (new_err factory err_insufficient_gas_limit) _ h in
    let minimum = provider.get_network_config.min_gas_price in
    let (_, h2) =
      guard-eq-ok (ltb (coalesce_gas_price options minimum) minimum)
        (new_err factory err_gas_price_too_low) _ h1 in
    let result =
      ok-injective
        {a = (
          compute_fee (movement_gas_limit provider tx.tx_data)
              (execution_gas_limit provider options.currency_symbol)
              (coalesce_gas_price options minimum) provider.get_network_config.execution_gas_price,
          coalesce_gas_limit options estimated,
          coalesce_gas_price options minimum,
        )}
        h2 in
    let price = ap (λ (t : ℕ × ℕ × ℕ). t.2) result in
    let total = ap (λ (t : ℕ × ℕ × ℕ). t.0) result in
    rw (direct, unguarded) (omega (arith, rw (native, price) at total))
