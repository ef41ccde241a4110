-- ===== src/Text/Decimal.antt =====
-- `(*big.Int).String` and `(*big.Int).SetString(_, 10)`.
use mathlib.Core.Option
use rosetta_images.Base.{
  ℕ, zero, suc, ◌+◌, ◌-◌, ◌*◌, ◌/◌, ◌%◌, ◌<◌, ◌≡◌, ◌≢◌, refl, ◌∙◌, Bool, true, ◌&&◌, Option, none,
  some, [], ◌∷◌, arith, Bytes, codes, ltb, leb, ◌==◌, nat_eq, if◌then◌else◌, ℤ, pos, negsuc, negate,
  All,
}

abbrev pub is_digit : ℕ → Bool
is_digit c = leb b'0' c && leb c b'9'

-- The digits of a number, least significant one last, in front of `out`.
digits : ℕ → ℕ → Bytes → Bytes
digits zero n out = out
digits (suc fuel) n out =
    let more = digits fuel (n / 10) ((b'0' + n % 10) ∷ out) in
    if ltb n 10 then (b'0' + n) ∷ out else more

-- Each round divides by ten, so `n + 1` rounds are enough.
unfoldable pub format : ℕ → Bytes
unfolding digits
format n = digits (suc n) n []

scan : ℕ → Bytes → Option ℕ
scan n [] = some n
scan n (c ∷ s) = let rest = scan (n * 10 + (c - b'0')) s in if is_digit c then rest else none

-- An unsigned decimal number: one digit at least, and nothing else.
unfoldable pub parse : Bytes → Option ℕ
unfolding scan
parse [] = none
parse (c ∷ s) = scan 0 (c ∷ s)

unfoldable pub format_ℤ : ℤ → Bytes
format_ℤ (pos n) = format n
format_ℤ (negsuc n) = b'-' ∷ format (suc n)

-- An optional sign, then digits.
unfoldable pub parse_ℤ : Bytes → Option ℤ
parse_ℤ [] = none
parse_ℤ (c ∷ s) =
    if c == b'-'
    then Option.map negate (parse s)
    else if c == b'+'
    then Option.map pos (parse s)
    else Option.map pos (parse (c ∷ s))

scan-digits : (fuel n : ℕ) (out : Bytes) → n < fuel → scan 0 (digits fuel n out) ≡ scan n out
unfolding scan digits
scan-digits zero n out h = absurd (omega arith)
scan-digits (suc fuel) n out h = ground (arith, scan-digits fuel (n / 10) ((b'0' + n % 10) ∷ out))

digits-ne-nil : (fuel n : ℕ) (out : Bytes) → out ≢ [] → digits fuel n out ≢ []
unfolding digits
digits-ne-nil zero n out h = h
digits-ne-nil (suc fuel) n out h =
    ground (arith, digits-ne-nil fuel (n / 10) ((b'0' + n % 10) ∷ out))

format-ne-nil : (n : ℕ) → format n ≢ []
unfolding format
format-ne-nil n = ground (arith, digits-ne-nil n (n / 10) ((b'0' + n % 10) ∷ []))

parse-scan : (s : Bytes) → s ≢ [] → parse s ≡ scan 0 s
unfolding parse
parse-scan [] h = absurd (h refl)
parse-scan (c ∷ s) h = refl

-- Every number is read back from its decimal form.
pub parse-format : (n : ℕ) → parse (format n) ≡ some n
parse-format n =
    parse-scan (format n) (format-ne-nil n)
    ∙ (unfold format scan in scan-digits (suc n) n [] (omega arith))

abbrev pub AllDigits : Bytes → Type 0
AllDigits = All (λ c. is_digit c ≡ true)

-- A text of one or more digits, as the node prints unsigned amounts.
abbrev pub IsDecimal : Bytes → Type 0
IsDecimal [] = ⊥
IsDecimal (c ∷ s) = AllDigits (c ∷ s)

-- The number that digits spell after `n`.
unfoldable pub value : ℕ → Bytes → ℕ
value n [] = n
value n (c ∷ s) = value (n * 10 + (c - b'0')) s

scan-value : (n : ℕ) (s : Bytes) → AllDigits s → scan n s ≡ some (value n s)
unfolding scan value
scan-value n [] h = refl
scan-value n (c ∷ s) (hc, h) = ground (arith, scan-value (n * 10 + (c - b'0')) s)

pub parse-value : (s : Bytes) → IsDecimal s → parse s ≡ some (value 0 s)
unfolding parse
parse-value [] h = absurd h
parse-value (c ∷ s) h = scan-value 0 (c ∷ s) h

pub parse_ℤ-value : (s : Bytes) → IsDecimal s → parse_ℤ s ≡ some (pos (value 0 s))
unfolding parse_ℤ
parse_ℤ-value [] h = absurd h
parse_ℤ-value (c ∷ s) (hc, h) = ground (arith, parse-value (c ∷ s) (hc, h))

pub parse_ℤ-minus : (s : Bytes) → IsDecimal s → parse_ℤ (b'-' ∷ s) ≡ some (negate (value 0 s))
unfolding parse_ℤ
parse_ℤ-minus s h = rw (parse-value s h)

digits-AllDigits : (fuel n : ℕ) (out : Bytes) → AllDigits out → AllDigits (digits fuel n out)
unfolding digits
digits-AllDigits zero n out h = h
digits-AllDigits (suc fuel) n out h =
    ground (arith, digits-AllDigits fuel (n / 10) ((b'0' + n % 10) ∷ out))

IsDecimal_of_AllDigits : (s : Bytes) → s ≢ [] → AllDigits s → IsDecimal s
IsDecimal_of_AllDigits [] h d = h refl
IsDecimal_of_AllDigits (c ∷ s) h d = d

pub format-IsDecimal : (n : ℕ) → IsDecimal (format n)
format-IsDecimal n =
    IsDecimal_of_AllDigits (format n) (format-ne-nil n)
      (unfold format in digits-AllDigits (suc n) n [] tt)

pub value-format : (n : ℕ) → value 0 (format n) ≡ n
value-format n = ground (arith, parse-format n, parse-value (format n) (format-IsDecimal n))

format_tests : (format 0 ≡ codes "0") × (format 1204 ≡ codes "1204")
unfolding format
format_tests = (refl, refl)

parse_ℤ_tests :
    (parse_ℤ (codes "-12") ≡ some (negsuc 11))
    × (parse_ℤ (codes "--1") ≡ none)
    × (parse_ℤ (codes "-0") ≡ some (pos 0))
    × (parse_ℤ (codes "+7") ≡ some (pos 7))
    × (parse_ℤ (codes "") ≡ none)
unfolding parse_ℤ parse
parse_ℤ_tests = (refl, refl, refl, refl, refl)
