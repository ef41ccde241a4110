-- ===== src/Services/Transformer/Ledger.antt =====
-- What a list of operations adds to and takes from all accounts, in one currency.
use rosetta_images.Base.{
  All, ℕ, zero, suc, ◌+◌, Bool, true, false, ◌≡◌, refl, Option, none, some, List, [], ◌∷◌, ◌++◌,
  flat_map, Bytes, ◌==◌, bytes_eq, if◌then◌else◌, ℤ, negate, pos_part, neg_part, arith,
}
use rosetta_images.Text.Decimal.{parse_ℤ, parse_ℤ-value, parse_ℤ-minus, IsDecimal, value}
use rosetta_images.Rosetta.{Operation, Amount}
use rosetta_images.Services.Interface.{NetworkProvider}
use rosetta_images.Services.Extension.{value_to_native_amount}
use rosetta_images.Services.TxOperations.{native_transfer}

abbrev credit_of : Option ℤ → ℕ
credit_of none = 0
credit_of (some z) = pos_part z

abbrev debit_of : Option ℤ → ℕ
debit_of none = 0
debit_of (some z) = neg_part z

-- What an amount adds to an account, and what it takes; a text that is no number does neither.
unfoldable pub credit : Bytes → ℕ
credit v = credit_of (parse_ℤ v)

unfoldable pub debit : Bytes → ℕ
debit v = debit_of (parse_ℤ v)

pub credit-value : (v : Bytes) → IsDecimal v → credit v ≡ value 0 v
unfolding credit
credit-value v h = rw (parse_ℤ-value v h)

pub debit-value : (v : Bytes) → IsDecimal v → debit v ≡ 0
unfolding debit
debit-value v h = rw (parse_ℤ-value v h)

pos_part-negate : (n : ℕ) → pos_part (negate n) ≡ 0
pos_part-negate zero = refl
pos_part-negate (suc n) = refl

neg_part-negate : (n : ℕ) → neg_part (negate n) ≡ n
neg_part-negate zero = refl
neg_part-negate (suc n) = refl

pub credit-minus : (v : Bytes) → IsDecimal v → credit (b'-' ∷ v) ≡ 0
unfolding credit
credit-minus v h = rw (parse_ℤ-minus v h) (pos_part-negate (value 0 v))

pub debit-minus : (v : Bytes) → IsDecimal v → debit (b'-' ∷ v) ≡ value 0 v
unfolding debit
debit-minus v h = rw (parse_ℤ-minus v h) (neg_part-negate (value 0 v))

module _ (symbol : Bytes) where
  -- `n`, if the amount is in the currency `symbol`.
  abbrev pub in_currency : Amount → ℕ → ℕ
  in_currency amount n = if amount.currency.symbol == symbol then n else 0

  unfoldable pub credits : List Operation → ℕ
  credits [] = 0
  credits (o ∷ os) = in_currency o.amount (credit o.amount.value) + credits os

  unfoldable pub debits : List Operation → ℕ
  debits [] = 0
  debits (o ∷ os) = in_currency o.amount (debit o.amount.value) + debits os

  pub credits-append : (xs ys : List Operation) → credits (xs ++ ys) ≡ credits xs + credits ys
  unfolding credits
  credits-append [] ys = omega arith
  credits-append (o ∷ xs) ys = omega (arith, credits-append xs ys)

  pub debits-append : (xs ys : List Operation) → debits (xs ++ ys) ≡ debits xs + debits ys
  unfolding debits
  debits-append [] ys = omega arith
  debits-append (o ∷ xs) ys = omega (arith, debits-append xs ys)

  abbrev pub IsBalanced : List Operation → Type 0
  IsBalanced os = credits os ≡ debits os

  pub nil-IsBalanced : IsBalanced []
  unfolding credits debits
  nil-IsBalanced = refl

  pub if-IsBalanced :
      (b : Bool) (xs ys : List Operation)
      → IsBalanced xs
      → IsBalanced ys
      → IsBalanced (if b then xs else ys)
  if-IsBalanced true xs ys h k = h
  if-IsBalanced false xs ys h k = k

  -- A debit and a credit of one value in one currency cancel out.
  pub pair_balanced :
      (a b : Operation) (v : Bytes)
      → IsDecimal v
      → a.amount.value ≡ b'-' ∷ v
      → b.amount.value ≡ v
      → a.amount.currency.symbol ≡ b.amount.currency.symbol
      → credits (a ∷ b ∷ []) ≡ debits (a ∷ b ∷ [])
  unfolding credits debits
  pair_balanced a b v h ea eb ec =
      rw (ea, eb, ec)
        (ground (arith, credit-minus v h, debit-minus v h, credit-value v h, debit-value v h))

  module _ (provider : NetworkProvider) where
    pub native_transfer_balanced :
        (op_type sender receiver v : Bytes)
        → IsDecimal v
        → credits (native_transfer provider op_type sender receiver v)
          ≡ debits (native_transfer provider op_type sender receiver v)
    unfolding value_to_native_amount
    native_transfer_balanced op_type sender receiver v h = pair_balanced _ _ v h refl refl refl

  pub flat_map_balanced {ℓ} :
      {A : Type ℓ} (f : A → List Operation) (xs : List A)
      → All (λ x. credits (f x) ≡ debits (f x)) xs
      → credits (flat_map f xs) ≡ debits (flat_map f xs)
  unfolding flat_map credits debits
  flat_map_balanced f [] h = refl
  flat_map_balanced f (x ∷ xs) (hx, h) = omega (
    arith,
    flat_map_balanced f xs h,
    credits-append (f x) (flat_map f xs),
    debits-append (f x) (flat_map f xs),
  )
