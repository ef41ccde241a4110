-- ===== src/Base/Lists.antt =====
-- Lists over the native numbers, and predicates on lists by recursion.
use Prim.Native.Nat.{ℕ, zero, suc, ◌+◌}
use mathlib.Core.Path.{◌≡◌, refl}
use mathlib.Core.Logic.{◌⊎◌, inl, inr}
use mathlib.Core.Bool.{Bool, true, false}
use mathlib.Core.Option.{Option, none, some}
use mathlib.Core.List.{List, [], ◌∷◌, ◌++◌, flat_map}
use native.Mathlib.Omega.{arith}
use rosetta_images.Base.Tests.{if◌then◌else◌}

module _ {ℓ} {A : Type ℓ} where
  abbrev pub length : List A → ℕ
  length [] = 0
  length (x ∷ xs) = suc (length xs)

  pub length-append : (xs ys : List A) → length (xs ++ ys) ≡ length xs + length ys
  length-append [] ys = omega arith
  length-append (x ∷ xs) ys = omega (arith, length-append xs ys)

  abbrev pub replicate : ℕ → A → List A
  replicate zero a = []
  replicate (suc n) a = a ∷ replicate n a

  abbrev pub take : ℕ → List A → List A
  take zero xs = []
  take (suc n) [] = []
  take (suc n) (x ∷ xs) = x ∷ take n xs

  abbrev pub drop : ℕ → List A → List A
  drop zero xs = xs
  drop (suc n) [] = []
  drop (suc n) (x ∷ xs) = drop n xs

  abbrev pub get_or : List A → ℕ → A → A
  get_or [] i d = d
  get_or (x ∷ xs) zero d = x
  get_or (x ∷ xs) (suc i) d = get_or xs i d

  pub Option-cases : (o : Option A) → (o ≡ none) ⊎ ((a : A) × (o ≡ some a))
  Option-cases none = inl refl
  Option-cases (some a) = inr (a, refl)

  -- A loop with `continue`: the elements that pass the test, in order.
  unfoldable pub keep : (A → Bool) → List A → List A
  keep p [] = []
  keep p (x ∷ xs) = let rest = keep p xs in if p x then x ∷ rest else rest

  -- A loop that returns early on the first hit.
  unfoldable pub any : (A → Bool) → List A → Bool
  any p [] = false
  any p (x ∷ xs) = let rest = any p xs in if p x then true else rest

module _ {ℓ κ} {A : Type ℓ} (P : A → Type κ) where
  abbrev pub All : List A → Type κ
  All [] = Unit
  All (x ∷ xs) = P x × All xs

  pub All-append : (xs ys : List A) → All xs → All ys → All (xs ++ ys)
  All-append [] ys _ hy = hy
  All-append (x ∷ xs) ys (px, hx) hy = (px, All-append xs ys hx hy)

module _ {ℓ κ} {A : Type ℓ} (P : A → Type κ) where
  pub All-keep : (p : A → Bool) (xs : List A) → All P xs → All P (keep p xs)
  unfolding keep
  All-keep p [] h = tt
  All-keep p (x ∷ xs) (hx, h) =
      elim (p x) as (λ b. All P (if b then x ∷ keep p xs else keep p xs)) [
        | true ↦ (hx, All-keep p xs h)
        | false ↦ All-keep p xs h
      ]

  pub All-flat_map {μ} :
      {B : Type μ} (f : B → List A) (xs : List B) → ((b : B) → All P (f b)) → All P (flat_map f xs)
  unfolding flat_map
  All-flat_map f [] h = tt
  All-flat_map f (x ∷ xs) h = All-append P (f x) (flat_map f xs) (h x) (All-flat_map f xs h)

module _ {ℓ} {A : Type ℓ} where
  keep_if :
      (p : A → Bool) (x : A) (b : Bool) (xs : List A)
      → p x ≡ b
      → All (λ y. p y ≡ true) xs
      → All (λ y. p y ≡ true) (if b then x ∷ xs else xs)
  keep_if p x true xs e h = (e, h)
  keep_if p x false xs e h = h

  -- What is kept passes the test.
  pub keep-All : (p : A → Bool) (xs : List A) → All (λ x. p x ≡ true) (keep p xs)
  unfolding keep
  keep-All p [] = tt
  keep-All p (x ∷ xs) = keep_if p x (p x) (keep p xs) refl (keep-All p xs)
