-- ===== src/Text/Hex.antt =====
-- `encoding/hex`: EncodeToString and DecodeString.
use rosetta_images.Base.{
  ℕ, ◌+◌, ◌-◌, ◌*◌, ◌/◌, ◌%◌, ◌<◌, ◌≡◌, ◌≢◌, ◌⊎◌, refl, ◌&&◌, Option, none, some, [], ◌∷◌, arith,
  Bytes, codes, ltb, leb, if◌then◌else◌, All,
}
use rosetta_images.Text.Split.{Lacks}

abbrev pub AllBytes : Bytes → Type 0
AllBytes = All (λ b. b < 256)

unfoldable pub hex_digit : ℕ → ℕ
hex_digit n = if ltb n 10 then b'0' + n else b'a' + (n - 10)

unfoldable pub hex_encode : Bytes → Bytes
hex_encode [] = []
hex_encode (b ∷ s) = hex_digit (b / 16) ∷ hex_digit (b % 16) ∷ hex_encode s

-- The value of a hexadecimal digit of either case.
unfoldable pub from_hex : ℕ → Option ℕ
from_hex c =
    if leb b'0' c && leb c b'9'
    then some (c - b'0')
    else if leb b'a' c && leb c b'f'
    then some (c - b'a' + 10)
    else if leb b'A' c && leb c b'F'
    then some (c - b'A' + 10)
    else none

join_digits : Option ℕ → Option ℕ → Option Bytes → Option Bytes
join_digits (some h) (some l) (some s) = some ((h * 16 + l) ∷ s)
join_digits _ _ _ = none

-- Fails on an odd length and on a byte that is no hexadecimal digit.
unfoldable pub hex_decode : Bytes → Option Bytes
unfolding join_digits
hex_decode [] = some []
hex_decode (_ ∷ []) = none
hex_decode (h ∷ l ∷ s) = join_digits (from_hex h) (from_hex l) (hex_decode s)

pub from_hex-hex_digit : (n : ℕ) → n < 16 → from_hex (hex_digit n) ≡ some n
unfolding from_hex hex_digit
from_hex-hex_digit n h = ground arith

-- Bytes are read back from their hexadecimal form.
pub hex_decode-hex_encode : (s : Bytes) → AllBytes s → hex_decode (hex_encode s) ≡ some s
unfolding hex_decode hex_encode
hex_decode-hex_encode [] h = refl
hex_decode-hex_encode (b ∷ s) (hb, h) =
    rw
      (
        from_hex-hex_digit (b / 16) (omega arith),
        from_hex-hex_digit (b % 16) (omega arith),
        hex_decode-hex_encode s h,
      )
      (ground arith)

hex_digit-ne :
    (n sep : ℕ) → n < 16 → (sep < b'0') ⊎ ((b'9' < sep) × (sep < b'a')) → hex_digit n ≢ sep
unfolding hex_digit
hex_digit-ne n sep h k = ground arith

-- Hexadecimal text holds none of the separators `-` and `@`.
pub hex_encode-Lacks :
    (s : Bytes) (sep : ℕ)
    → AllBytes s
    → (sep < b'0') ⊎ ((b'9' < sep) × (sep < b'a'))
    → Lacks sep (hex_encode s)
unfolding hex_encode
hex_encode-Lacks [] sep h k = tt
hex_encode-Lacks (b ∷ s) sep (hb, h) k = (
  hex_digit-ne (b / 16) sep (omega arith) k,
  (hex_digit-ne (b % 16) sep (omega arith) k, hex_encode-Lacks s sep h k),
)

hex_tests :
    (hex_encode (codes "AbZ") ≡ codes "41625a")
    × (hex_decode (codes "41625A") ≡ some (codes "AbZ"))
    × (hex_decode (codes "4") ≡ none)
    × (hex_decode (codes "4g") ≡ none)
unfolding hex_encode hex_digit hex_decode from_hex
hex_tests = (refl, refl, refl, refl)
