-- ===== src/Text/Split.antt =====
-- `strings.Split` at a one-byte separator, `strings.HasPrefix` and `strings.Trim`.
use mathlib.Core.List.{reverse-cons, reverse-reverse}
use rosetta_images.Base.{
  ℕ, ◌≡◌, ◌≢◌, refl, Bool, true, false, ◌&&◌, List, [], ◌∷◌, ◌++◌, reverse, arith, Bytes, codes,
  ◌==◌, nat_eq, if◌then◌else◌, All, All-append,
}

abbrev pub Lacks : ℕ → Bytes → Type 0
Lacks b = All (λ c. c ≢ b)

-- Put a byte in front of the first part.
extend : ℕ → List Bytes → List Bytes
extend c [] = (c ∷ []) ∷ []
extend c (p ∷ ps) = (c ∷ p) ∷ ps

unfoldable pub split : Bytes → ℕ → List Bytes
unfolding extend
split [] sep = [] ∷ []
split (c ∷ s) sep = let parts = split s sep in if c == sep then [] ∷ parts else extend c parts

split-Lacks : (p : Bytes) (sep : ℕ) → Lacks sep p → split p sep ≡ p ∷ []
unfolding split
split-Lacks [] sep h = refl
split-Lacks (c ∷ p) sep h = ground (arith, split-Lacks p sep)

pub split-append :
    (p rest : Bytes) (sep : ℕ) → Lacks sep p → split (p ++ sep ∷ rest) sep ≡ p ∷ split rest sep
unfolding split
split-append [] rest sep h = ground arith
split-append (c ∷ p) rest sep h = ground (arith, split-append p rest sep)

pub split_one : (p : Bytes) (sep : ℕ) → Lacks sep p → split p sep ≡ p ∷ []
split_one = split-Lacks

pub split_two :
    (p q : Bytes) (sep : ℕ) → Lacks sep p → Lacks sep q → split (p ++ sep ∷ q) sep ≡ p ∷ q ∷ []
split_two p q sep hp hq = ground (arith, split-append p q sep hp, split-Lacks q sep hq)

pub split_three :
    (p q r : Bytes) (sep : ℕ)
    → Lacks sep p
    → Lacks sep q
    → Lacks sep r
    → split (p ++ sep ∷ (q ++ sep ∷ r)) sep ≡ p ∷ q ∷ r ∷ []
split_three p q r sep hp hq hr =
    ground (arith, split-append p (q ++ sep ∷ r) sep hp, split_two q r sep hq hr)

unfoldable pub has_prefix : Bytes → Bytes → Bool
has_prefix s [] = true
has_prefix [] (c ∷ p) = false
has_prefix (d ∷ s) (c ∷ p) = d == c && has_prefix s p

pub has_prefix-append : (p rest : Bytes) → has_prefix (p ++ rest) p ≡ true
unfolding has_prefix
has_prefix-append [] [] = refl
has_prefix-append [] (c ∷ rest) = refl
has_prefix-append (c ∷ p) rest = ground (arith, has_prefix-append p rest)

trim_left : Bytes → ℕ → Bytes
trim_left [] b = []
trim_left (c ∷ s) b = let rest = trim_left s b in if c == b then rest else c ∷ s

-- `strings.Trim` with a cut set of one byte.
unfoldable pub trim : Bytes → ℕ → Bytes
unfolding trim_left
trim s b = reverse (trim_left (reverse (trim_left s b)) b)

trim_left-cons : (s : Bytes) (b : ℕ) → trim_left (b ∷ s) b ≡ trim_left s b
unfolding trim_left
trim_left-cons s b = ground arith

trim_left-Lacks : (s : Bytes) (b : ℕ) → Lacks b s → trim_left s b ≡ s
unfolding trim_left
trim_left-Lacks [] b h = refl
trim_left-Lacks (c ∷ s) b h = ground (arith, h)

All-reverse : (P : ℕ → Type 0) (s : Bytes) → All P s → All P (reverse s)
All-reverse P [] h = tt
All-reverse P (c ∷ s) (hc, h) =
    rw (reverse-cons c s) (All-append P (reverse s) (c ∷ []) (All-reverse P s h) (hc, tt))

-- One byte of the cut set in front goes, and nothing else.
pub trim-cons : (s : Bytes) (b : ℕ) → Lacks b s → trim (b ∷ s) b ≡ s
unfolding trim
trim-cons s b h =
    rw
      (
        trim_left-cons s b,
        trim_left-Lacks s b h,
        trim_left-Lacks (reverse s) b (All-reverse (λ c. c ≢ b) s h),
      )
      (reverse-reverse s)

split_tests :
    (split (codes "a@b@") b'@' ≡ codes "a" ∷ codes "b" ∷ [] ∷ [])
    × (split [] b'@' ≡ [] ∷ [])
    × (trim (codes "--5-") b'-' ≡ codes "5")
unfolding split trim
split_tests = (refl, refl, refl)
