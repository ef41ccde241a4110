-- ===== src/Base/Res.antt =====
-- Go's `(value, error)` results.
use mathlib.Core.Path.{◌≡◌, refl, sym, ap, subst}
use mathlib.Core.Logic.{◌⊎◌, inl, inr}
use mathlib.Core.List.{List, [], ◌∷◌}
use rosetta_images.Base.Lists.{All}
use rosetta_images.Base.Tests.{if◌then◌else◌}
use mathlib.Core.Bool.{Bool, true, false}

pub data Result {ℓ κ} (E : Type κ) (A : Type ℓ) : Type (ℓ ⊔ κ) where
  ok : A → Result E A
  err : E → Result E A

infixl 5 ◌>>=◌ ◌>>◌
abbrev pub ◌>>=◌ {ℓ μ κ} :
    {E : Type κ} {A : Type ℓ} {B : Type μ} → Result E A → (A → Result E B) → Result E B
ok a >>= f = f a
err e >>= f = err e

abbrev pub ◌>>◌ {ℓ κ} : {E : Type κ} {B : Type ℓ} → Result E (Unit {0}) → Result E B → Result E B
m >> k = m >>= λ _. k

-- `errFactory` wraps the error of a callee.
abbrev pub map_err {ℓ κ μ} :
    {A : Type ℓ} {E : Type κ} {F : Type μ} → (E → F) → Result E A → Result F A
map_err f (ok a) = ok a
map_err f (err e) = err (f e)

abbrev pub ok_or {ℓ κ} : {E : Type κ} {A : Type ℓ} → A → Result E A → A
ok_or d (ok a) = a
ok_or d (err e) = d

pub ok-injective {ℓ κ} :
    {E : Type κ} {A : Type ℓ} {a b : A} → Path (Result E A) (ok a) (ok b) → a ≡ b
ok-injective {a} p = ap (ok_or a) p

pub >>=-eq-ok {ℓ μ κ} :
    {E : Type κ} {A : Type ℓ} {B : Type μ} (r : Result E A) (f : A → Result E B) {b : B}
    → (r >>= f) ≡ ok b
    → (a : A) × (r ≡ ok a) × (f a ≡ ok b)
>>=-eq-ok (ok a) f h = (a, refl, h)
>>=-eq-ok (err e) f h = cc

pub ok-of_map_err {ℓ κ μ} :
    {A : Type ℓ} {E : Type κ} {F : Type μ} (f : E → F) (r : Result E A) {a : A}
    → map_err f r ≡ ok a
    → r ≡ ok a
ok-of_map_err {E} {F} f (ok b) h = ap ok (ok-injective {E = F} h)
ok-of_map_err f (err e) h = cc

-- An early return with an error, passed.
pub guard-eq-ok {ℓ κ} :
    {E : Type κ} {A : Type ℓ} (b : Bool) (e : E) (m : Result E A) {a : A}
    → (if b then err e else m) ≡ ok a
    → (b ≡ false) × (m ≡ ok a)
guard-eq-ok true e m h = cc
guard-eq-ok false e m h = (refl, h)

-- A loop that appends one result for each element and returns at the first error.
module _ {ℓ μ κ} {E : Type κ} {A : Type ℓ} {B : Type μ} where
  unfoldable pub traverse : (A → Result E B) → List A → Result E (List B)
  traverse f [] = ok []
  traverse f (x ∷ xs) = do y ← f x; ys ← traverse f xs; ok (y ∷ ys)

module _ {ℓ μ κ ν} {E : Type κ} {A : Type ℓ} {B : Type μ} (P : B → Type ν) where
  pub All-traverse :
      (f : A → Result E B) (xs : List A) {ys : List B}
      → traverse f xs ≡ ok ys
      → ((x : A) (y : B) → f x ≡ ok y → P y)
      → All P ys
  unfolding traverse
  All-traverse f [] {ys} h k = subst (All P) (ok-injective h) tt
  All-traverse f (x ∷ xs) {ys} h k =
      let (y, hy, rest) = >>=-eq-ok (f x) _ h in
      let (zs, hzs, last) = >>=-eq-ok (traverse f xs) _ rest in
      subst (All P) (ok-injective last) (k x y hy, All-traverse f xs hzs k)

abbrev pub err_or {ℓ κ} : {E : Type κ} {A : Type ℓ} → E → Result E A → E
err_or d (ok a) = d
err_or d (err e) = e

pub err-injective {ℓ κ} :
    {E : Type κ} {A : Type ℓ} {a b : E} → Path (Result E A) (err a) (err b) → a ≡ b
err-injective {a} p = ap (err_or a) p

pub err-of_map_err {ℓ κ μ} :
    {A : Type ℓ} {E : Type κ} {F : Type μ} (f : E → F) (r : Result E A) {e : F}
    → map_err f r ≡ err e
    → (original : E) × (r ≡ err original) × (e ≡ f original)
err-of_map_err f (ok a) h = cc
err-of_map_err {A} f (err original) h = (original, refl, sym (err-injective {A = A} h))

pub >>=-eq-err {ℓ μ κ} :
    {E : Type κ} {A : Type ℓ} {B : Type μ} (r : Result E A) (f : A → Result E B) {e : E}
    → (r >>= f) ≡ err e
    → (r ≡ err e) ⊎ ((a : A) × (r ≡ ok a) × (f a ≡ err e))
>>=-eq-err (ok a) f h = inr (a, refl, h)
>>=-eq-err {E} {A} {B} (err e) f h = inl (ap err (err-injective {E = E} {A = B} h))
