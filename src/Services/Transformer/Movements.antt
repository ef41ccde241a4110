-- ===== src/Services/Transformer/Movements.antt =====
-- server/services/transactionsTransformer.go and operations.go: the last loop of the transformer keeps
-- every movement that it should, in order.
use rosetta_images.Base.{
  All, ℕ, ◌+◌, ◌≡◌, refl, ap, ◌∙◌, Bool, true, false, ◌&&◌, some, List, [], ◌∷◌, map, Bytes, ok,
  keep, if◌then◌else◌, arith,
}
use rosetta_images.Rosetta.{Operation, Amount, Transaction}
use rosetta_images.Services.Interface.{NetworkProvider}
use rosetta_images.Services.Common.{is_non_zero_amount}
use rosetta_images.Services.Converters.{index_to_operation_identifier}
use rosetta_images.Services.Operations.{
  index_from, index_operations, observed_operations, filter_operations_by_address,
  filter_out_operations_with_zero_amount, apply_default_status_on_operations,
}
use rosetta_images.Services.Transformer.{finish_tx}

-- What an operation does, apart from its index and status.
abbrev pub movement : Operation → Bytes × Bytes × Amount
movement o = (o.op_type, o.account.address, o.amount)

abbrev pub movements : List Operation → List (Bytes × Bytes × Amount)
movements = map movement

movements-index_from : (i : ℕ) (ops : List Operation) → movements (index_from i ops) ≡ movements ops
unfolding index_from
movements-index_from i [] = refl
movements-index_from i (o ∷ ops) = ap (λ ms. movement o ∷ ms) (movements-index_from (i + 1) ops)

movements-apply_default_status :
    (ops : List Operation) → movements (apply_default_status_on_operations ops) ≡ movements ops
unfolding apply_default_status_on_operations
movements-apply_default_status [] = refl
movements-apply_default_status (o ∷ ops) =
    ap (λ ms. movement o ∷ ms) (movements-apply_default_status ops)

-- The test of amounts does not look at the index.
movements-keep-index_from :
    (i : ℕ) (ops : List Operation)
    → movements (keep (λ o. is_non_zero_amount o.amount.value) (index_from i ops))
      ≡ movements (keep (λ o. is_non_zero_amount o.amount.value) ops)
unfolding index_from keep
movements-keep-index_from i [] = refl
movements-keep-index_from i (o ∷ ops) =
    elim (is_non_zero_amount o.amount.value)
      as (λ b.
        movements (
          if b
          then (record o { operation_identifier = some (index_to_operation_identifier i) })
            ∷ keep (λ o. is_non_zero_amount o.amount.value) (index_from (i + 1) ops)
          else keep (λ o. is_non_zero_amount o.amount.value) (index_from (i + 1) ops))
        ≡ movements (
            if b
            then o ∷ keep (λ o. is_non_zero_amount o.amount.value) ops
            else keep (λ o. is_non_zero_amount o.amount.value) ops)) [
              | true ↦ ap (λ ms. movement o ∷ ms) (movements-keep-index_from (i + 1) ops)
              | false ↦ movements-keep-index_from (i + 1) ops
            ]

keep-keep :
    (p q : Operation → Bool) (ops : List Operation)
    → keep q (keep p ops) ≡ keep (λ o. p o && q o) ops
unfolding keep
keep-keep p q [] = refl
keep-keep p q (o ∷ ops) = ground (arith, keep-keep p q ops)

-- The provider can tell whether the accounts of the operations are observed.
abbrev pub AreAnswered : NetworkProvider → (Bytes → Bool) → List Operation → Type 0
AreAnswered provider observed =
    All (λ o. provider.is_address_observed o.account.address ≡ ok (observed o.account.address))

observed_operations-keep :
    (provider : NetworkProvider) (observed : Bytes → Bool) (ops : List Operation)
    → AreAnswered provider observed ops
    → observed_operations provider.is_address_observed ops
      ≡ ok (keep (λ o. observed o.account.address) ops)
unfolding observed_operations keep
observed_operations-keep provider observed [] answers = refl
observed_operations-keep provider observed (o ∷ ops) (answer, answers) =
    rw (answer, observed_operations-keep provider observed ops answers) refl

-- When the provider can tell of the account of each operation whether it is observed, the last loop succeeds; it
-- keeps the identifier of the transaction and exactly the movements at observed addresses whose
-- amounts are not zero, in their order.
pub finish_tx_lem :
    (provider : NetworkProvider) (observed : Bytes → Bool) (tx : Transaction)
    → AreAnswered provider observed tx.operations
    → (finished : Transaction) × (finish_tx provider tx ≡ ok finished)
      × (finished.transaction_identifier ≡ tx.transaction_identifier)
      × (movements finished.operations
          ≡ movements (
              keep
                (λ o. observed o.account.address && is_non_zero_amount o.amount.value)
                tx.operations))
unfolding finish_tx filter_operations_by_address index_operations
    filter_out_operations_with_zero_amount
finish_tx_lem provider observed tx answers = (
  record tx {
    operations = apply_default_status_on_operations (
        filter_out_operations_with_zero_amount
          (index_operations (keep (λ o. observed o.account.address) tx.operations)));
  },
  rw (observed_operations-keep provider observed tx.operations answers) refl,
  refl,
  movements-apply_default_status _
      ∙ movements-index_from 0 _
      ∙ movements-keep-index_from 0 _
      ∙ ap movements (
          keep-keep (λ o. observed o.account.address) (λ o. is_non_zero_amount o.amount.value)
            tx.operations),
)
