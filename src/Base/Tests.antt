-- ===== src/Base/Tests.antt =====
-- Boolean tests on native numbers and on byte strings, and the conditional.
use Prim.Native.Nat.{ℕ, compare, Ordering}
use Prim.Native.Char.{code}
use Prim.Native.String.{String}
use mathlib.Core.Path.{◌≡◌, refl}
use mathlib.Core.Logic.{◌↔◌, ◌⊎◌, inl, inr}
use mathlib.Core.Bool.{Bool, true, false, ◌&&◌}
use mathlib.Core.List.{List, [], ◌∷◌}
use native.Mathlib.Omega.{arith}

infix 1 if◌then◌else◌
abbrev pub if◌then◌else◌ {ℓ} : {A : Type ℓ} → Bool → A → A → A
if true then x else y = x
if false then x else y = y

abbrev pub ltb : ℕ → ℕ → Bool
ltb a b = elim (compare a b) [ Ordering.lt ↦ true | _ ↦ false ]

abbrev pub leb : ℕ → ℕ → Bool
leb a b = elim (compare a b) [ Ordering.gt ↦ false | _ ↦ true ]

abbrev nat_beq : ℕ → ℕ → Bool
nat_beq a b = elim (compare a b) [ Ordering.eq ↦ true | _ ↦ false ]

abbrev pub Bytes : Type 0
Bytes = List ℕ

-- The bytes of an ASCII literal.
abbrev pub codes : String → Bytes
codes String.[] = []
codes (String.◌∷◌ c s) = code c ∷ codes s

unfoldable pub bytes_beq : Bytes → Bytes → Bool
bytes_beq [] [] = true
bytes_beq (a ∷ s) (b ∷ t) = nat_beq a b && bytes_beq s t
bytes_beq _ _ = false

-- A type whose values the program compares by `==`.
pub record Eq {ℓ} (A : Type ℓ) : Type ℓ where
  pub equal : A → A → Bool
  pub equal_iff : (a b : A) → (equal a b ≡ true) ↔ (a ≡ b)

pub nat_beq_iff : (a b : ℕ) → (nat_beq a b ≡ true) ↔ (a ≡ b)
nat_beq_iff a b = ground arith

infix 50 ◌==◌
abbrev pub ◌==◌ {ℓ} : {A : Type ℓ} ⦃e : Eq A⦄ → A → A → Bool
◌==◌ ⦃e⦄ = e.equal

instance abbrev pub nat_eq : Eq ℕ
nat_eq = record { equal = nat_beq; equal_iff = nat_beq_iff }

bytes_beq_sound : (a b : Bytes) → bytes_beq a b ≡ true → a ≡ b
unfolding bytes_beq
bytes_beq_sound [] [] h = refl
bytes_beq_sound (x ∷ s) (y ∷ t) h = ground (arith, bytes_beq_sound s t)
bytes_beq_sound [] (y ∷ t) h = ground arith
bytes_beq_sound (x ∷ s) [] h = ground arith

pub bytes_beq_refl : (a : Bytes) → bytes_beq a a ≡ true
unfolding bytes_beq
bytes_beq_refl [] = refl
bytes_beq_refl (x ∷ s) = ground (arith, bytes_beq_refl s)

pub bytes_eq_iff : (a b : Bytes) → (bytes_beq a b ≡ true) ↔ (a ≡ b)
bytes_eq_iff a b = (bytes_beq_sound a b, λ e. of_path e)
  where
    of_path : a ≡ b → bytes_beq a b ≡ true
    of_path e = ground (arith, bytes_beq_refl a, e)

instance abbrev pub bytes_eq : Eq Bytes
bytes_eq = record { equal = bytes_beq; equal_iff = bytes_eq_iff }

-- To split on a computed test and keep the equation.
pub Bool-cases : (b : Bool) → (b ≡ true) ⊎ (b ≡ false)
Bool-cases true = inl refl
Bool-cases false = inr refl

abbrev pub is_empty {ℓ} : {A : Type ℓ} → List A → Bool
is_empty [] = true
is_empty (x ∷ xs) = false
