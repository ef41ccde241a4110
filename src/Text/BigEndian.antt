-- ===== src/Text/BigEndian.antt =====
-- `(*big.Int).SetBytes` and `(*big.Int).Bytes`: an unsigned number in base 256, without leading
-- zero bytes.
use rosetta_images.Base.{
  ℕ, zero, suc, ◌+◌, ◌*◌, ◌/◌, ◌%◌, ◌<◌, ◌≡◌, refl, [], ◌∷◌, arith, Bytes, ◌==◌, nat_eq,
  if◌then◌else◌,
}
use rosetta_images.Text.Hex.{AllBytes}

unfoldable pub set_from : ℕ → Bytes → ℕ
set_from n [] = n
set_from n (b ∷ s) = set_from (n * 256 + b) s

unfoldable pub set_bytes : Bytes → ℕ
unfolding set_from
set_bytes s = set_from 0 s

emit : ℕ → ℕ → Bytes → Bytes
emit zero n out = out
emit (suc fuel) n out =
    let more = emit fuel (n / 256) ((n % 256) ∷ out) in if n == 0 then out else more

-- Each round divides by 256, so `n` rounds are enough.
unfoldable pub to_bytes : ℕ → Bytes
unfolding emit
to_bytes n = emit n n []

set_from-emit :
    (fuel n : ℕ) (out : Bytes) → n < suc fuel → set_from 0 (emit fuel n out) ≡ set_from n out
unfolding set_from emit
set_from-emit zero n out h = ground arith
set_from-emit (suc fuel) n out h = ground (arith, set_from-emit fuel (n / 256) ((n % 256) ∷ out))

-- A number is read back from its bytes.
pub set_bytes-to_bytes : (n : ℕ) → set_bytes (to_bytes n) ≡ n
set_bytes-to_bytes n = unfold set_bytes to_bytes in set_from-emit n n [] (omega arith)

emit-AllBytes : (fuel n : ℕ) (out : Bytes) → AllBytes out → AllBytes (emit fuel n out)
unfolding emit
emit-AllBytes zero n out h = h
emit-AllBytes (suc fuel) n out h = ground (arith, emit-AllBytes fuel (n / 256) ((n % 256) ∷ out))

pub to_bytes-AllBytes : (n : ℕ) → AllBytes (to_bytes n)
unfolding to_bytes
to_bytes-AllBytes n = emit-AllBytes n n [] tt

to_bytes_tests : (to_bytes 0 ≡ []) × (to_bytes 258 ≡ 1 ∷ 2 ∷ [])
unfolding to_bytes
to_bytes_tests = (refl, refl)
