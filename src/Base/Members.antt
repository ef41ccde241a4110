-- ===== src/Base/Members.antt =====
-- Membership in the lists that loops give.
use mathlib.Core.Path.{◌≡◌, refl, sym, subst}
use mathlib.Core.Bool.{Bool, true, false}
use mathlib.Core.List.{List, [], ◌∷◌, Memᴰ}
use mathlib.Core.List.Memᴰ.{head, tail}
use rosetta_images.Base.Tests.{if◌then◌else◌}
use rosetta_images.Base.Lists.{keep, any, All}

module _ {ℓ} {A : Type ℓ} where
  pub All-Memᴰ {κ} : (P : A → Type κ) {x : A} (xs : List A) → All P xs → Memᴰ x xs → P x
  All-Memᴰ P [] h m = elim m [ ]
  All-Memᴰ P (y ∷ ys) (hy, h) (head e) = subst P (sym e) hy
  All-Memᴰ P (y ∷ ys) (hy, h) (tail m) = All-Memᴰ P ys h m

  Memᴰ-of_if :
      (p : A → Bool) {x y : A} {xs ys : List A} (b : Bool)
      → p y ≡ b
      → (Memᴰ x xs → Memᴰ x ys × (p x ≡ true))
      → Memᴰ x (if b then y ∷ xs else xs)
      → Memᴰ x (y ∷ ys) × (p x ≡ true)
  Memᴰ-of_if p {x} true e k (head d) = (head d, subst (λ z. p z ≡ true) (sym d) e)
  Memᴰ-of_if p true e k (tail m) = let (n, h) = k m in (tail n, h)
  Memᴰ-of_if p false e k m = let (n, h) = k m in (tail n, h)

  pub Memᴰ-of_keep :
      (p : A → Bool) {x : A} (xs : List A) → Memᴰ x (keep p xs) → Memᴰ x xs × (p x ≡ true)
  unfolding keep
  Memᴰ-of_keep p [] m = elim m [ ]
  Memᴰ-of_keep p (y ∷ ys) m = Memᴰ-of_if p (p y) refl (Memᴰ-of_keep p ys) m

  pub Memᴰ-keep : (p : A → Bool) {x : A} (xs : List A) → Memᴰ x xs → p x ≡ true → Memᴰ x (keep p xs)
  unfolding keep
  Memᴰ-keep p {x} [] m h = elim m [ ]
  Memᴰ-keep p {x} (y ∷ ys) (head e) h = rw (subst (λ z. p z ≡ true) e h) (head e)
  Memᴰ-keep p {x} (y ∷ ys) (tail m) h =
      elim (p y) as (λ b. Memᴰ x (if b then y ∷ keep p ys else keep p ys)) [
        | true ↦ tail (Memᴰ-keep p ys m h)
        | false ↦ Memᴰ-keep p ys m h
      ]

  pub any-of_Memᴰ : (p : A → Bool) {x : A} (xs : List A) → Memᴰ x xs → p x ≡ true → any p xs ≡ true
  unfolding any
  any-of_Memᴰ p [] m h = elim m [ ]
  any-of_Memᴰ p {x} (y ∷ ys) (head e) h = rw (subst (λ z. p z ≡ true) e h) refl
  any-of_Memᴰ p {x} (y ∷ ys) (tail m) h =
      elim (p y) as (λ b. (if b then true else any p ys) ≡ true) [
        | true ↦ refl
        | false ↦ any-of_Memᴰ p ys m h
      ]

  Memᴰ-of_any_if :
      (p : A → Bool) (y : A) (ys : List A) (b : Bool)
      → p y ≡ b
      → (any p ys ≡ true → (x : A) × Memᴰ x ys × (p x ≡ true))
      → (if b then true else any p ys) ≡ true
      → (x : A) × Memᴰ x (y ∷ ys) × (p x ≡ true)
  Memᴰ-of_any_if p y ys true e k h = (y, head refl, e)
  Memᴰ-of_any_if p y ys false e k h = let (x, m, hx) = k h in (x, tail m, hx)

  pub Memᴰ-of_any :
      (p : A → Bool) (xs : List A) → any p xs ≡ true → (x : A) × Memᴰ x xs × (p x ≡ true)
  unfolding any
  Memᴰ-of_any p [] h = cc
  Memᴰ-of_any p (y ∷ ys) h = Memᴰ-of_any_if p y ys (p y) refl (Memᴰ-of_any p ys) h
