-- ===== src/Services/Common.antt =====
-- server/services/common.go: amounts as decimal texts.
use rosetta_images.Base.{
  ℕ, ◌*◌, ◌+◌, ◌≡◌, Bool, true, false, not, Option, none, some, [], ◌∷◌, arith, Bytes, ◌==◌, nat_eq,
  bytes_eq, ℤ, nat_abs,
}
use rosetta_images.Text.Decimal.{parse_ℤ, parse_ℤ-value, parse_ℤ-minus, IsDecimal, value}
use rosetta_images.Text.Split.{trim}

-- `value.Sign() == 0`
abbrev pub is_zero_big_int_or_nil : ℤ → Bool
is_zero_big_int_or_nil z = nat_abs z == 0

-- `SetString` and its `ok`
abbrev sign_is_zero : Option ℤ → Bool
sign_is_zero none = false
sign_is_zero (some z) = is_zero_big_int_or_nil z

unfoldable pub is_zero_amount : Bytes → Bool
is_zero_amount [] = true
is_zero_amount (c ∷ s) = sign_is_zero (parse_ℤ (c ∷ s))

unfoldable pub is_non_zero_amount : Bytes → Bool
is_non_zero_amount amount = not (is_zero_amount amount)

unfoldable pub get_magnitude_of_amount : Bytes → Bytes
get_magnitude_of_amount amount = trim amount b'-'

-- `big.Int` products and sums do not overflow.
unfoldable pub multiply_uint64 : ℕ → ℕ → ℕ
multiply_uint64 a b = a * b

unfoldable pub add_big_int : ℕ → ℕ → ℕ
add_big_int a b = a + b

-- On a decimal text the test is whether the number is zero.
pub is_zero_amount-value : (v : Bytes) → IsDecimal v → is_zero_amount v ≡ (value 0 v == 0)
unfolding is_zero_amount
is_zero_amount-value [] h = absurd h
is_zero_amount-value (c ∷ s) h = ground (arith, parse_ℤ-value (c ∷ s) h)

-- The sign does not matter.
pub is_zero_amount-minus : (v : Bytes) → IsDecimal v → is_zero_amount (b'-' ∷ v) ≡ (value 0 v == 0)
unfolding is_zero_amount
is_zero_amount-minus v h = ground (arith, parse_ℤ-minus v h)
