-- ===== src/Services/Transformer/Finished.antt =====
-- What every transaction of a transformed block has: numbered, visible and effective operations.
use rosetta_images.Base.{
  is_empty, ℕ, ◌+◌, Bool, true, false, not, ◌≡◌, ◌≢◌, refl, ap, subst, Option, none, some, List, [],
  ◌∷◌, ◌++◌, Bytes, ok, >>=-eq-ok, ok-injective, if◌then◌else◌, bytes_eq, keep, traverse, All,
  All-keep, keep-All, All-traverse, arith,
}
use rosetta_images.Api.{Libraries, Block}
use rosetta_images.Rosetta.{Operation, Transaction}
use rosetta_images.Services.Interface.{NetworkProvider}
use rosetta_images.Services.Common.{is_non_zero_amount}
use rosetta_images.Services.Operations.{
  index_from, index_operations, observed_operations, filter_operations_by_address,
  filter_out_operations_with_zero_amount, apply_default_status_on_operations, default_status,
}
use rosetta_images.Services.Filters.{filter_out_rosetta_transactions_with_no_operations}
use rosetta_images.Services.TxOperations.{refund_receipt_to_rosetta_tx}
use rosetta_images.Services.Transformer.{
  finish_tx, tx_to_rosetta_tx, effective_txs, transform_block_txs,
}

-- The operations are numbered from `index` on, one by one.
abbrev pub IsIndexed : ℕ → List Operation → Type 0
IsIndexed index [] = Unit
IsIndexed index (o ∷ os) =
    (o.operation_identifier ≡ some (record { index = index })) × IsIndexed (index + 1) os

module _ (provider : NetworkProvider) where
  abbrev pub IsObserved : Operation → Type 0
  IsObserved o = provider.is_address_observed o.account.address ≡ ok true

  abbrev pub IsEffective : Operation → Type 0
  IsEffective o = is_non_zero_amount o.amount.value ≡ true

  abbrev pub HasStatus : Operation → Type 0
  HasStatus o = o.status ≢ none

  pub record IsFinished (tx : Transaction) : Type 0 where
    pub not_empty : tx.operations ≢ []
    pub indexed : IsIndexed 0 tx.operations
    pub observed : All IsObserved tx.operations
    pub effective : All IsEffective tx.operations
    pub has_status : All HasStatus tx.operations

  observed_operations-All :
      (os : List Operation) {os' : List Operation}
      → observed_operations provider.is_address_observed os ≡ ok os'
      → All IsObserved os'
  unfolding observed_operations
  observed_operations-All [] h = subst (All IsObserved) (ok-injective h) tt
  observed_operations-All (o ∷ os) h =
      let (b, hb, rest) = >>=-eq-ok (provider.is_address_observed o.account.address) _ h in
      let (zs, hzs, last) =
        >>=-eq-ok (observed_operations provider.is_address_observed os) _ rest in
      subst (All IsObserved) (ok-injective last) (include b hb zs (observed_operations-All os hzs))
    where
      include :
          (b : Bool)
          → provider.is_address_observed o.account.address ≡ ok b
          → (zs : List Operation) → All IsObserved zs
          → All IsObserved (if b then o ∷ zs else zs)
      include true e zs k = (e, k)
      include false e zs k = k

  index_from-IsObserved :
      (i : ℕ) (os : List Operation) → All IsObserved os → All IsObserved (index_from i os)
  unfolding index_from
  index_from-IsObserved i [] h = tt
  index_from-IsObserved i (o ∷ os) (ho, h) = (ho, index_from-IsObserved (i + 1) os h)

  index_from-IsEffective :
      (i : ℕ) (os : List Operation) → All IsEffective os → All IsEffective (index_from i os)
  unfolding index_from
  index_from-IsEffective i [] h = tt
  index_from-IsEffective i (o ∷ os) (ho, h) = (ho, index_from-IsEffective (i + 1) os h)

  index_from-IsIndexed : (i : ℕ) (os : List Operation) → IsIndexed i (index_from i os)
  unfolding index_from
  index_from-IsIndexed i [] = tt
  index_from-IsIndexed i (o ∷ os) = (refl, index_from-IsIndexed (i + 1) os)

  status-IsIndexed :
      (i : ℕ) (os : List Operation)
      → IsIndexed i os
      → IsIndexed i (apply_default_status_on_operations os)
  unfolding apply_default_status_on_operations
  status-IsIndexed i [] h = tt
  status-IsIndexed i (o ∷ os) (ho, h) = (ho, status-IsIndexed (i + 1) os h)

  status-IsObserved :
      (os : List Operation)
      → All IsObserved os
      → All IsObserved (apply_default_status_on_operations os)
  unfolding apply_default_status_on_operations
  status-IsObserved [] h = tt
  status-IsObserved (o ∷ os) (ho, h) = (ho, status-IsObserved os h)

  status-IsEffective :
      (os : List Operation)
      → All IsEffective os
      → All IsEffective (apply_default_status_on_operations os)
  unfolding apply_default_status_on_operations
  status-IsEffective [] h = tt
  status-IsEffective (o ∷ os) (ho, h) = (ho, status-IsEffective os h)

  default_status-ne-none : (s : Option Bytes) → default_status s ≢ none
  default_status-ne-none none = cc
  default_status-ne-none (some s) = cc

  status-HasStatus : (os : List Operation) → All HasStatus (apply_default_status_on_operations os)
  unfolding apply_default_status_on_operations
  status-HasStatus [] = tt
  status-HasStatus (o ∷ os) = (default_status-ne-none o.status, status-HasStatus os)

  -- The four facts that do not need a transaction to have operations.
  abbrev Shaped : List Operation → Type 0
  Shaped os = IsIndexed 0 os × All IsObserved os × All IsEffective os × All HasStatus os

  finish_operations-Shaped :
      (os os' : List Operation)
      → filter_operations_by_address provider.is_address_observed os ≡ ok os'
      → Shaped (apply_default_status_on_operations (filter_out_operations_with_zero_amount os'))
  unfolding filter_operations_by_address filter_out_operations_with_zero_amount index_operations
  finish_operations-Shaped os os' h =
      let (zs, hzs, e) = >>=-eq-ok (observed_operations provider.is_address_observed os) _ h in
      let observed : All IsObserved os' =
        subst (All IsObserved) (ok-injective e)
          (index_from-IsObserved 0 zs (observed_operations-All os hzs)) in
      let kept = keep (λ (o : Operation). is_non_zero_amount o.amount.value) os' in
      (
        status-IsIndexed 0 _ (index_from-IsIndexed 0 kept),
        status-IsObserved _ (index_from-IsObserved 0 kept (All-keep IsObserved _ os' observed)),
        status-IsEffective _ (index_from-IsEffective 0 kept (keep-All _ os')),
        status-HasStatus _,
      )

  finish_tx-Shaped : (tx tx' : Transaction) → finish_tx provider tx ≡ ok tx' → Shaped tx'.operations
  unfolding finish_tx
  finish_tx-Shaped tx tx' h =
      let (os, hos, e) =
        >>=-eq-ok (filter_operations_by_address provider.is_address_observed tx.operations) _ h in
      subst (λ (t : Transaction). Shaped t.operations) (ok-injective e)
        (finish_operations-Shaped tx.operations os hos)

  IsFinished-of_Shaped :
      (txs : List Transaction)
      → All (λ tx. Shaped tx.operations) txs
      → All (λ tx. not (is_empty tx.operations) ≡ true) txs
      → All IsFinished txs
  IsFinished-of_Shaped [] h k = tt
  IsFinished-of_Shaped (tx ∷ txs) ((indexed, observed, effective, has_status), h) (ne, k) = (
    record {
      not_empty = λ e. ground (arith, ap (λ os. not (is_empty os)) e);
      indexed = indexed;
      observed = observed;
      effective = effective;
      has_status = has_status;
    },
    IsFinished-of_Shaped txs h k,
  )

-- Every transaction of a transformed block has an operation; its operations are numbered 0, 1, …,
-- belong to observed addresses, have amounts that are not zero, and have a status.
pub transform_block_txs-IsFinished :
    ⦃lib : Libraries⦄ (provider : NetworkProvider) (block : Block) (txs : List Transaction)
    → transform_block_txs provider block ≡ ok txs
    → All (IsFinished provider) txs
unfolding transform_block_txs filter_out_rosetta_transactions_with_no_operations
transform_block_txs-IsFinished provider block txs h =
    let effective = effective_txs provider block in
    let (of_txs, _, h1) =
      >>=-eq-ok (traverse (λ tx. tx_to_rosetta_tx provider tx effective) effective) _ h in
    let (of_receipts, _, h2) =
      >>=-eq-ok (traverse (refund_receipt_to_rosetta_tx provider) _) _ h1 in
    let (finished, hf, e) =
      >>=-eq-ok (traverse (finish_tx provider) (of_txs ++ of_receipts)) _ h2 in
    subst (All (IsFinished provider)) (ok-injective e) (
      IsFinished-of_Shaped provider _
        (All-keep (λ (tx : Transaction). Shaped provider tx.operations) _ finished
          (All-traverse (λ (tx : Transaction). Shaped provider tx.operations) (finish_tx provider)
            (of_txs ++ of_receipts) hf (finish_tx-Shaped provider)))
        (keep-All _ finished))
