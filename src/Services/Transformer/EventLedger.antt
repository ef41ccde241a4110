-- ===== src/Services/Transformer/EventLedger.antt =====
-- Conservation of every currency by the operations that follow from events.
use rosetta_images.Base.{
  ℕ, ◌+◌, ◌≡◌, refl, List, [], ◌∷◌, flat_map, Bytes, ◌==◌, bytes_eq, if◌then◌else◌, arith, All,
}
use rosetta_images.Text.Decimal.{IsDecimal, value}
use rosetta_images.Api.{ApiTransaction}
use rosetta_images.Services.Interface.{NetworkProvider}
use rosetta_images.Services.Constants.{native_as_esdt_identifier}
use rosetta_images.Services.Extension.{value_to_native_amount, value_to_custom_amount}
use rosetta_images.Services.Events.{
  EventScDeploy, EventTransferValueOnly, EventEsdt, EventClaimDeveloperRewards,
  get_extended_identifier,
}
use rosetta_images.Services.TxOperations.{are_claim_developer_rewards_events_enabled}
use rosetta_images.Services.OpTypes
use rosetta_images.Services.EventOperations.{
  custom_operation, TypedEvents, extract_operations_from_event_esdt, operations_of_sc_deploy,
  operations_of_transfer_value_only, operations_of_decrease, operations_of_increase,
  operations_of_claim_developer_rewards, operations_of_events,
}
use rosetta_images.Services.Transformer.Ledger.{
  credits, debits, credits-append, debits-append, credit-value, debit-value, credit-minus,
  debit-minus, native_transfer_balanced, pair_balanced, flat_map_balanced, in_currency, IsBalanced,
  if-IsBalanced, nil-IsBalanced,
}

abbrev pub Decimals : List EventEsdt → Type 0
Decimals = All (λ (e : EventEsdt). IsDecimal e.value)

-- The values of typed events are decimal texts.
pub record AreDecimal (events : TypedEvents) : Type 0 where
  pub transfer_value_only :
      All (λ (e : EventTransferValueOnly). IsDecimal e.value) events.transfer_value_only
  pub esdt_transfer : Decimals events.esdt_transfer
  pub local_burn : Decimals events.local_burn
  pub local_mint : Decimals events.local_mint
  pub wipe : Decimals events.wipe
  pub nft_create : Decimals events.nft_create
  pub nft_burn : Decimals events.nft_burn
  pub nft_add_quantity : Decimals events.nft_add_quantity
  pub claim_developer_rewards :
      All (λ (e : EventClaimDeveloperRewards). IsDecimal e.value) events.claim_developer_rewards

module _ (provider : NetworkProvider) (symbol : Bytes) where
  -- The amount that the events of supported tokens name, in the currency `symbol`.
  unfoldable pub supply : List EventEsdt → ℕ
  supply [] = 0
  supply (e ∷ es) =
      (if provider.has_custom_currency e.identifier
        then in_currency symbol
            (value_to_custom_amount provider e.value (get_extended_identifier e)) (value 0 e.value)
        else 0)
      + supply es

  unfoldable pub claims : List EventClaimDeveloperRewards → ℕ
  claims [] = 0
  claims (e ∷ es) =
      in_currency symbol (value_to_native_amount provider e.value) (value 0 e.value) + claims es

  -- What burns and wipes take out of circulation.
  unfoldable pub removed : TypedEvents → ℕ
  removed events = supply events.local_burn + supply events.wipe + supply events.nft_burn

  -- What mints and developer rewards bring into circulation.
  unfoldable pub added : ℕ → TypedEvents → ℕ
  added epoch events =
      supply events.local_mint
      + supply events.nft_create
      + supply events.nft_add_quantity
      + (if are_claim_developer_rewards_events_enabled provider epoch
          then claims events.claim_developer_rewards
          else 0)

  decrease_ledger :
      (es : List EventEsdt)
      → Decimals es
      → (credits symbol (flat_map (operations_of_decrease provider) es) ≡ 0)
        × (debits symbol (flat_map (operations_of_decrease provider) es) ≡ supply es)
  unfolding flat_map operations_of_decrease credits debits supply value_to_custom_amount
  decrease_ledger [] h = (refl, refl)
  decrease_ledger (e ∷ es) (he, h) =
      let ih = decrease_ledger es h in
      ground (arith, ih, credit-minus e.value he, debit-minus e.value he)

  increase_ledger :
      (es : List EventEsdt)
      → Decimals es
      → (credits symbol (flat_map (operations_of_increase provider) es) ≡ supply es)
        × (debits symbol (flat_map (operations_of_increase provider) es) ≡ 0)
  unfolding flat_map operations_of_increase credits debits supply value_to_custom_amount
  increase_ledger [] h = (refl, refl)
  increase_ledger (e ∷ es) (he, h) =
      let ih = increase_ledger es h in
      ground (arith, ih, credit-value e.value he, debit-value e.value he)

  claims_ledger :
      (epoch : ℕ) (es : List EventClaimDeveloperRewards)
      → All (λ (e : EventClaimDeveloperRewards). IsDecimal e.value) es
      → (credits symbol (operations_of_claim_developer_rewards provider epoch es)
          ≡ (if are_claim_developer_rewards_events_enabled provider epoch then claims es else 0))
        × (debits symbol (operations_of_claim_developer_rewards provider epoch es) ≡ 0)
  unfolding flat_map operations_of_claim_developer_rewards credits debits claims
      value_to_native_amount
  claims_ledger epoch [] h = ground arith
  claims_ledger epoch (e ∷ es) (he, h) =
      let ih = claims_ledger epoch es h in
      ground (arith, ih, credit-value e.value he, debit-value e.value he)

  sc_deploy-IsBalanced :
      (tx : ApiTransaction) (es : List EventScDeploy)
      → IsDecimal tx.value
      → All (λ e. IsBalanced symbol (operations_of_sc_deploy provider tx e)) es
  unfolding operations_of_sc_deploy
  sc_deploy-IsBalanced tx [] h = tt
  sc_deploy-IsBalanced tx (e ∷ es) h = (
    if-IsBalanced symbol _ _ _ (native_transfer_balanced symbol provider _ _ _ tx.value h)
        (nil-IsBalanced symbol),
    sc_deploy-IsBalanced tx es h,
  )

  transfer_value_only-IsBalanced :
      (es : List EventTransferValueOnly)
      → All (λ (e : EventTransferValueOnly). IsDecimal e.value) es
      → All (λ e. IsBalanced symbol (operations_of_transfer_value_only provider e)) es
  unfolding operations_of_transfer_value_only
  transfer_value_only-IsBalanced [] h = tt
  transfer_value_only-IsBalanced (e ∷ es) (he, h) = (
    native_transfer_balanced symbol provider _ _ _ e.value he,
    transfer_value_only-IsBalanced es h,
  )

  custom_transfer-IsBalanced :
      (e : EventEsdt)
      → IsDecimal e.value
      → IsBalanced symbol (
          custom_operation provider e e.sender_address (b'-' ∷ e.value)
          ∷ custom_operation provider e e.receiver_address e.value
          ∷ [])
  unfolding value_to_custom_amount
  custom_transfer-IsBalanced e h = pair_balanced symbol _ _ e.value h refl refl refl

  esdt-IsBalanced :
      (e : EventEsdt)
      → IsDecimal e.value
      → IsBalanced symbol (extract_operations_from_event_esdt provider e)
  unfolding extract_operations_from_event_esdt
  esdt-IsBalanced e h =
      if-IsBalanced symbol (e.identifier == native_as_esdt_identifier) _ _
        (native_transfer_balanced symbol provider OpTypes.transfer e.sender_address
          e.receiver_address e.value h)
        (if-IsBalanced symbol (provider.has_custom_currency e.identifier) _ _
          (custom_transfer-IsBalanced e h) (nil-IsBalanced symbol))

  esdt_transfer-IsBalanced :
      (es : List EventEsdt)
      → Decimals es
      → All (λ e. IsBalanced symbol (extract_operations_from_event_esdt provider e)) es
  esdt_transfer-IsBalanced [] h = tt
  esdt_transfer-IsBalanced (e ∷ es) (he, h) = (esdt-IsBalanced e he, esdt_transfer-IsBalanced es h)

  -- Whatever the events are, each currency is conserved: what the operations credit and what is
  -- removed add up to what they debit and what is added.
  pub operations_of_events_conserve :
      (tx : ApiTransaction) (events : TypedEvents)
      → IsDecimal tx.value
      → AreDecimal events
      → credits symbol (operations_of_events provider tx events) + removed events
        ≡ debits symbol (operations_of_events provider tx events) + added tx.epoch events
  unfolding operations_of_events removed added
  operations_of_events_conserve tx events h d =
      simp (credits-append, debits-append)
        (omega (
          arith,
          flat_map_balanced symbol _ _ (sc_deploy-IsBalanced tx events.sc_deploy h),
          flat_map_balanced symbol _ _ (transfer_value_only-IsBalanced _ d.transfer_value_only),
          flat_map_balanced symbol _ _ (esdt_transfer-IsBalanced _ d.esdt_transfer),
          decrease_ledger events.local_burn d.local_burn,
          increase_ledger events.local_mint d.local_mint,
          decrease_ledger events.wipe d.wipe,
          increase_ledger events.nft_create d.nft_create,
          decrease_ledger events.nft_burn d.nft_burn,
          increase_ledger events.nft_add_quantity d.nft_add_quantity,
          claims_ledger tx.epoch events.claim_developer_rewards d.claim_developer_rewards,
        ))
