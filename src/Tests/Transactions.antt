-- ===== src/Tests/Transactions.antt =====
-- Transactions of a block, run through the transformer.
use rosetta_images.Base.{
  ◌≡◌, not, ◌==◌, ◌&&◌, bytes_eq, refl, List, [], ◌∷◌, ◌+◌, ok, err, ok_or, All, codes, arith,
  Bytes, map, flat_map, keep, any, traverse, bytes_beq,
}
use rosetta_images.Failure.{unknown_transaction_type}
use rosetta_images.Text.Decimal.{format, parse, parse_ℤ, format_ℤ}
use rosetta_images.Text.BigEndian.{set_bytes}
use rosetta_images.Api.{ApiTransaction}
use rosetta_images.Rosetta.{Transaction, Operation}
use rosetta_images.Provider.RelayedV3.{is_relayed_tx_v3}
use rosetta_images.Services.Common
use rosetta_images.Services.Extension
use rosetta_images.Services.Relayed
use rosetta_images.Services.Events
use rosetta_images.Services.EventsController
use rosetta_images.Services.EsdtEvents
use rosetta_images.Services.Features
use rosetta_images.Services.Filters
use rosetta_images.Services.Operations
use rosetta_images.Services.TxOperations
use rosetta_images.Services.EventOperations
use rosetta_images.Services.EventOperations.{TypedEvents, extract_typed_events}
use rosetta_images.Services.Transformer.{
  gather_txs, gather_receipts, dispatch_tx, tx_to_rosetta_tx, finish_tx, effective_txs,
  transform_block_txs,
}
use rosetta_images.Services.Transformer.Ledger.{credits, debits}
use rosetta_images.Services.Transformer.EventLedger.{added, removed}
use rosetta_images.Services.Transformer.Finished.{IsFinished, transform_block_txs-IsFinished}
use rosetta_images.Services.Transformer.Movements
use rosetta_images.Services.Transformer.Movements.{finish_tx_lem}
use rosetta_images.Services.Transformer.Balance.{fee_in, normal_tx_conserves}
use rosetta_images.Tests.Sample.{sample_libraries, sample_provider, native, blank, call, block_of}

-- Opens what a run of the transformer computes with.
transformer_run : Unit {0}
unfolding flat_map keep any traverse bytes_beq format parse parse_ℤ format_ℤ set_bytes
    is_relayed_tx_v3 Common.is_zero_amount Common.is_non_zero_amount
    Extension.value_to_native_amount Extension.value_to_custom_amount Extension.is_contract_address
    Relayed.is_relayed_v1_transaction Events.new_event_esdt_from_basic_topics
    Events.get_extended_identifier EventsController.has_events
    EventsController.find_many_events_by_identifier EventsController.has_any_signal_error
    EventsController.typed_sc_deploy EventsController.extract_event_sc_deploy
    EventsController.decide_effective_event_transfer_value_only_after_sirius
    EventsController.extract_event_transfer_value_only
    EventsController.typed_claim_developer_rewards
    EventsController.extract_events_claim_developer_rewards EsdtEvents.typed_local
    EsdtEvents.extract_events_esdt_local_burn EsdtEvents.extract_events_esdt_local_mint
    EsdtEvents.extract_events_esdt_nft_create EsdtEvents.extract_events_esdt_nft_burn
    EsdtEvents.extract_events_esdt_nft_add_quantity EsdtEvents.extract_events_esdt_wipe
    EsdtEvents.typed_wipe EsdtEvents.typed_transfer EsdtEvents.typed_multi_transfer
    EsdtEvents.multi_transfers EsdtEvents.extract_events_esdt_or_esdt_nft_transfers
    Features.is_intrashard Features.is_contract_deployment_with_signal_error
    Features.is_contract_call_with_signal_error
    Features.is_contract_deployment_with_signal_error_or_intrashard_contract_call_with_signal_error
    Features.is_smart_contract_result_ineffective_refund
    Features.does_contract_result_hold_rewards_of_claim_developer_rewards Filters.invalid_txs
    Filters.holds_hash
    Filters.filter_out_intrashard_contract_results_whose_original_transaction_is_in_invalid_miniblock
    Filters.filter_out_intrashard_relayed_transaction_already_held_in_invalid_miniblock
    Filters.filter_out_rosetta_transactions_with_no_operations Operations.index_operations
    Operations.observed_operations Operations.filter_operations_by_address
    Operations.filter_out_operations_with_zero_amount Operations.apply_default_status_on_operations
    TxOperations.decide_fee_payer TxOperations.are_claim_developer_rewards_events_enabled
    TxOperations.reward_tx_to_rosetta_tx TxOperations.unsigned_tx_to_rosetta_tx
    TxOperations.extract_inner_tx_operations_if_before_sirius_relayed_completely_intrashard_with_signal_error
    TxOperations.normal_tx_to_rosetta TxOperations.invalid_tx_to_rosetta_tx
    EventOperations.extract_operations_from_event_esdt EventOperations.operations_of_sc_deploy
    EventOperations.operations_of_transfer_value_only EventOperations.operations_of_decrease
    EventOperations.operations_of_increase EventOperations.operations_of_claim_developer_rewards
    EventOperations.operations_of_events EventOperations.extract_typed_events
    EventOperations.add_operations_given_transaction_events gather_txs gather_receipts dispatch_tx
    tx_to_rosetta_tx finish_tx effective_txs transform_block_txs
transformer_run = tt

unknown_type :
    transform_block_txs sample_provider (block_of (record blank { tx_type = codes "odd" } ∷ []))
    ≡ err (unknown_transaction_type (codes "odd"))
unfolding transformer_run
unknown_type = refl

abbrev transformed : List ApiTransaction → List Transaction
transformed txs = ok_or [] (transform_block_txs sample_provider (block_of txs))

-- The addresses and amounts of all operations.
abbrev movements : List Transaction → List (Bytes × Bytes)
movements txs =
    flat_map
      (λ (tx : Transaction).
        map (λ (o : Operation). (o.account.address, o.amount.value)) tx.operations)
      txs

movements-call :
    movements (transformed (call ∷ []))
    ≡ (codes "alice", codes "-1000")
      ∷ (codes "bob", codes "1000")
      ∷ (codes "alice", codes "-50")
      ∷ (codes "alice", codes "-300")
      ∷ (codes "bob", codes "300")
      ∷ (codes "alice", codes "-7")
      ∷ (codes "alice", codes "9")
      ∷ []
unfolding transformer_run
movements-call = refl

transform_block_txs-IsFinished_example :
    All (IsFinished sample_provider) (transformed (call ∷ blank ∷ []))
unfolding transformer_run
transform_block_txs-IsFinished_example =
    transform_block_txs-IsFinished sample_provider (block_of (call ∷ blank ∷ [])) _ refl

abbrev call_tx : Transaction
call_tx =
    ok_or (record { transaction_identifier = record { hash = [] }; operations = []; metadata = [] })
      (tx_to_rosetta_tx sample_provider call (call ∷ []))

normal_tx_conserves_example :
    (events : TypedEvents) × (extract_typed_events sample_provider call ≡ ok events)
    × (debits native.symbol call_tx.operations + added sample_provider native.symbol 4 events
        ≡ credits native.symbol call_tx.operations
          + removed sample_provider native.symbol events
          + fee_in sample_provider native.symbol (codes "50"))
unfolding transformer_run
normal_tx_conserves_example =
    normal_tx_conserves sample_provider native.symbol call (call ∷ []) call_tx refl refl
      (ground arith) (ground arith) refl

finish_tx_lem_example :
    (finished : Transaction) × (finish_tx sample_provider call_tx ≡ ok finished)
    × (finished.transaction_identifier ≡ call_tx.transaction_identifier)
    × (Movements.movements finished.operations
        ≡ Movements.movements (
            keep
              (λ o.
                not (o.account.address == codes "elsewhere")
                && Common.is_non_zero_amount o.amount.value)
              call_tx.operations))
unfolding transformer_run
finish_tx_lem_example =
    finish_tx_lem sample_provider (λ address. not (address == codes "elsewhere")) call_tx
      (refl, (refl, (refl, (refl, (refl, (refl, (refl, tt)))))))
