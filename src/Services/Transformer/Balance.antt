-- ===== src/Services/Transformer/Balance.antt =====
-- Conservation of every currency by the operations of one transaction.

use rosetta_images.Base.{
  bytes_eq_iff, sym, ℕ, ◌+◌, ◌≡◌, subst, ◌∙◌, Bool, true, false, List, [], ◌∷◌, ◌++◌, Bytes, Result,
  ok, ◌>>=◌, >>=-eq-ok, ok-injective, bytes_eq, if◌then◌else◌, arith, sym,
}
use rosetta_images.Text.Decimal.{IsDecimal, value}
use rosetta_images.Api.{Libraries, ApiTransaction, InnerTransaction}
use rosetta_images.Rosetta.{Operation, Transaction}
use rosetta_images.Services.Interface.{NetworkProvider}
use rosetta_images.Services.OpTypes
use rosetta_images.Services.Extension.{value_to_native_amount}
use rosetta_images.Services.Relayed.{parse_inner_tx_of_relayed_v1}
use rosetta_images.Services.TxOperations.{
  native_operation, decide_fee_payer, inner_tx_operations, transfers_value, normal_tx_to_rosetta,
  extract_inner_tx_operations_if_before_sirius_relayed_completely_intrashard_with_signal_error,
}
use rosetta_images.Services.Features.{
  is_relayed_v1_transaction_completely_intrashard_with_signal_error,
}
use rosetta_images.Services.EventsController.{has_any_signal_error}
use rosetta_images.Services.EventOperations.{
  TypedEvents, extract_typed_events, add_operations_given_transaction_events,
}
use rosetta_images.Services.Transformer.{dispatch_tx, tx_to_rosetta_tx, Failure}
use rosetta_images.Services.Transformer.Ledger.{
  in_currency, credits, debits, credits-append, debits-append, credit-minus, debit-minus,
  IsBalanced, nil-IsBalanced, if-IsBalanced, native_transfer_balanced,
}
use rosetta_images.Services.Transformer.EventLedger.{removed, added, operations_of_events_conserve}
use rosetta_images.Services.Transformer.EventValues.{extract_typed_events-AreDecimal}

module _ ⦃lib : Libraries⦄ (provider : NetworkProvider) (symbol : Bytes) where
  -- A fee, in the currency `symbol`: the native currency pays it.
  abbrev pub fee_in : Bytes → ℕ
  fee_in fee = in_currency symbol (value_to_native_amount provider fee) (value 0 fee)

  -- An inner transaction adds operations only after a signal error.
  inner_tx-none :
      (tx : ApiTransaction) (inner_tx : InnerTransaction)
      → has_any_signal_error tx ≡ false
      → inner_tx_operations provider tx inner_tx ≡ []
  unfolding inner_tx_operations is_relayed_v1_transaction_completely_intrashard_with_signal_error
  inner_tx-none tx inner_tx quiet = ground (arith, quiet)

  fee_ledger :
      (op_type payer fee : Bytes) (os : List Operation)
      → IsDecimal fee
      → (credits symbol (native_operation provider op_type payer (b'-' ∷ fee) ∷ os)
          ≡ credits symbol os)
        × (debits symbol (native_operation provider op_type payer (b'-' ∷ fee) ∷ os)
            ≡ fee_in fee + debits symbol os)
  unfolding credits debits value_to_native_amount
  fee_ledger op_type payer fee os h = ground (arith, credit-minus fee h, debit-minus fee h)

  fee_conserve :
      (op_type payer fee : Bytes) (before after : List Operation)
      → IsDecimal fee
      → IsBalanced symbol before
      → IsBalanced symbol after
      → debits symbol (before ++ native_operation provider op_type payer (b'-' ∷ fee) ∷ after)
        ≡ credits symbol (before ++ native_operation provider op_type payer (b'-' ∷ fee) ∷ after)
          + fee_in fee
  fee_conserve op_type payer fee before after h hb ha =
      simp (credits-append, debits-append) (omega (arith, fee_ledger op_type payer fee after h))

  skip-IsBalanced :
      (b : Bool) (m : Result Failure (List Operation)) (os : List Operation)
      → (m ≡ ok os → IsBalanced symbol os)
      → (if b then ok [] else m) ≡ ok os
      → IsBalanced symbol os
  skip-IsBalanced true m os k h = subst (IsBalanced symbol) (ok-injective h) (nil-IsBalanced symbol)
  skip-IsBalanced false m os k h = k h

  inner-IsBalanced :
      (tx : ApiTransaction) (os : List Operation)
      → has_any_signal_error tx ≡ false
      → extract_inner_tx_operations_if_before_sirius_relayed_completely_intrashard_with_signal_error
          provider tx
        ≡ ok os
      → IsBalanced symbol os
  unfolding extract_inner_tx_operations_if_before_sirius_relayed_completely_intrashard_with_signal_error
  inner-IsBalanced tx os quiet h = skip-IsBalanced _ _ os (skip-IsBalanced _ _ os parsed) h
    where
      parsed :
          (parse_inner_tx_of_relayed_v1 tx >>= λ i. ok (inner_tx_operations provider tx i)) ≡ ok os
          → IsBalanced symbol os
      parsed k =
          let (i, hi, last) = >>=-eq-ok (parse_inner_tx_of_relayed_v1 tx) _ k in
          subst (IsBalanced symbol) (sym (inner_tx-none tx i quiet) ∙ ok-injective last)
            (nil-IsBalanced symbol)

  -- A normal transaction takes its fee, and otherwise moves value from account to account.
  normal_tx_conserve :
      (tx : ApiTransaction) (r : Transaction)
      → IsDecimal tx.value
      → IsDecimal tx.initially_paid_fee
      → has_any_signal_error tx ≡ false
      → normal_tx_to_rosetta provider tx ≡ ok r
      → debits symbol r.operations ≡ credits symbol r.operations + fee_in tx.initially_paid_fee
  unfolding normal_tx_to_rosetta
  normal_tx_conserve tx r hv hf quiet h =
      let (inner, hi, last) =
        >>=-eq-ok
          (extract_inner_tx_operations_if_before_sirius_relayed_completely_intrashard_with_signal_error
            provider tx)
          _ h in
      subst
        (λ (t : Transaction).
          debits symbol t.operations ≡ credits symbol t.operations + fee_in tx.initially_paid_fee)
        (ok-injective last)
        (fee_conserve OpTypes.fee (decide_fee_payer tx) tx.initially_paid_fee _ inner hf
          (if-IsBalanced symbol (transfers_value provider tx) _ _
            (native_transfer_balanced symbol provider OpTypes.transfer tx.sender tx.receiver
              tx.value hv)
            (nil-IsBalanced symbol))
          (inner-IsBalanced tx inner quiet hi))

  -- The events that add operations: none after a signal error.
  add_operations_conserve :
      (tx : ApiTransaction) (r r' : Transaction)
      → IsDecimal tx.value
      → has_any_signal_error tx ≡ false
      → add_operations_given_transaction_events provider tx r ≡ ok r'
      → (events : TypedEvents) × (extract_typed_events provider tx ≡ ok events)
        × (credits symbol r'.operations
              + removed provider symbol events
              + debits symbol r.operations
            ≡ debits symbol r'.operations
              + added provider symbol tx.epoch events
              + credits symbol r.operations)
  unfolding add_operations_given_transaction_events
  add_operations_conserve tx r r' hv quiet h =
      let (events, he, last) = >>=-eq-ok (extract_typed_events provider tx) _ (rw quiet at h) in
      (
        events,
        he,
        subst
            (λ (t : Transaction).
              credits symbol t.operations
                + removed provider symbol events
                + debits symbol r.operations
              ≡ debits symbol t.operations
                + added provider symbol tx.epoch events
                + credits symbol r.operations)
            (ok-injective last)
            (simp (credits-append, debits-append)
              (omega (
                arith,
                operations_of_events_conserve provider symbol tx events hv
                    (extract_typed_events-AreDecimal provider tx events he),
              ))),
      )

-- In every currency, a normal transaction without a signal error takes from the accounts what it
-- gives to them, but for its fee (in the native currency), for what its burn and wipe events remove,
-- and for what its mint events and developer rewards add. Its value and fee are decimal texts.
pub normal_tx_conserves :
    ⦃lib : Libraries⦄ (provider : NetworkProvider) (symbol : Bytes) (tx : ApiTransaction)
    (txs : List ApiTransaction) (r : Transaction)
    → tx.tx_type ≡ lib.tx_type_normal
    → has_any_signal_error tx ≡ false
    → IsDecimal tx.value
    → IsDecimal tx.initially_paid_fee
    → tx_to_rosetta_tx provider tx txs ≡ ok r
    → (events : TypedEvents) × (extract_typed_events provider tx ≡ ok events)
      × (debits symbol r.operations + added provider symbol tx.epoch events
          ≡ credits symbol r.operations
            + removed provider symbol events
            + fee_in provider symbol tx.initially_paid_fee)
unfolding tx_to_rosetta_tx dispatch_tx
normal_tx_conserves provider symbol tx txs r is_normal quiet hv hf h =
    let (base, hb, h1) = >>=-eq-ok (dispatch_tx provider tx txs) _ h in
    let base_conserves =
      normal_tx_conserve provider symbol tx base hv hf quiet
        (rw ((bytes_eq_iff tx.tx_type _).1 is_normal) at hb) in
    let (events, he, total) = add_operations_conserve provider symbol tx base r hv quiet h1 in
    (events, he, omega (arith, total, base_conserves))
