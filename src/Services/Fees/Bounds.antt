-- ===== src/Services/Fees/Bounds.antt =====
-- server/services/constructionServiceFee.go: what the computed fee, gas limit and gas price satisfy.
use native.Mathlib.Nat.{mul-le-mul_left, mul-le-mul_right, add-mul, mod-eq_of_lt}
use rosetta_images.Base.{
  false, ℕ, ◌+◌, ◌*◌, ◌%◌, ◌^◌, ◌≤◌, ◌<◌, ◌≡◌, subst, arith, Bytes, ok, ltb, guard-eq-ok,
  ok-injective,
}
use rosetta_images.Services.Interface.{NetworkProvider}
use rosetta_images.Services.Common.{multiply_uint64, add_big_int}
use rosetta_images.Services.Errors.{ErrFactory}
use rosetta_images.Services.Options.{ConstructionOptions, coalesce_gas_price}
use rosetta_images.Services.Fees.{
  compute_fee, movement_gas_limit, execution_gas_limit, estimated_gas_limit, compute_fee_components,
}

fee-le_gas :
    (movement execution price dearest gas : ℕ)
    → dearest ≤ price
    → movement + execution ≤ gas
    → movement * price + execution * dearest ≤ gas * price
fee-le_gas movement execution price dearest gas cheap enough = omega (
  arith,
  mul-le-mul_left execution cheap,
  add-mul movement execution price,
  mul-le-mul_right price enough,
)

le_of_not-ltb : (a b : ℕ) → ltb a b ≡ false → b ≤ a
le_of_not-ltb a b h = ground arith

le_of_not-ltb-mod : (a b : ℕ) → a < 2 ^ 64 → ltb b (a % 2 ^ 64) ≡ false → a ≤ b
le_of_not-ltb-mod a b fits h =
    subst (λ c. c ≤ b) (mod-eq_of_lt fits) (le_of_not-ltb b (a % 2 ^ 64) h)

-- When the estimate fits 64 bits and execution is not dearer than movement, a computed fee is
-- covered by the gas limit at the gas price, the gas limit covers the estimate of the data and of
-- the transfer, and the gas price is not below the minimum.
pub compute_fee_components_lem :
    (provider : NetworkProvider) (factory : ErrFactory) (options : ConstructionOptions)
    (computed_data : Bytes) (fee gas_limit gas_price : ℕ)
    → movement_gas_limit provider computed_data
        + execution_gas_limit provider options.currency_symbol
      < 2 ^ 64
    → ((price : ℕ) → provider.get_network_config.execution_gas_price price ≤ price)
    → compute_fee_components provider factory options computed_data ≡ ok (fee, gas_limit, gas_price)
    → (fee ≤ gas_limit * gas_price)
      × (movement_gas_limit provider computed_data
            + execution_gas_limit provider options.currency_symbol
          ≤ gas_limit)
      × (provider.get_network_config.min_gas_price ≤ gas_price)
unfolding compute_fee_components compute_fee estimated_gas_limit multiply_uint64 add_big_int
compute_fee_components_lem provider factory options computed fee gas_limit gas_price fits cheap h =
    let movement = movement_gas_limit provider computed in
    let execution = execution_gas_limit provider options.currency_symbol in
    let (enough, h1) = guard-eq-ok _ _ _ h in
    let (dear, h2) = guard-eq-ok _ _ _ h1 in
    let price = coalesce_gas_price options provider.get_network_config.min_gas_price in
    let covered = le_of_not-ltb-mod (movement + execution) _ fits enough in
    subst
      (λ (t : ℕ × ℕ × ℕ).
        (t.0 ≤ t.1 * t.2)
        × (movement + execution ≤ t.1)
        × (provider.get_network_config.min_gas_price ≤ t.2))
      (ok-injective h2)
      (
        fee-le_gas movement execution price (provider.get_network_config.execution_gas_price price)
            _ (cheap price) covered,
        covered,
        le_of_not-ltb _ _ dear,
      )
