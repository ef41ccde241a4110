-- ===== src/Services/EventOperations.antt =====
-- server/services/transactionsTransformer.go: the operations that follow from the events of a
-- transaction. Each loop of the source is a `flat_map` over the typed events.
use rosetta_images.Base.{
  ℕ, List, [], ◌∷◌, ◌++◌, flat_map, Bytes, Result, ok, ◌>>=◌, ◌==◌, bytes_eq, if◌then◌else◌,
}
use rosetta_images.Failure.{Failure}
use rosetta_images.Api.{Libraries, ApiTransaction}
use rosetta_images.Rosetta.{Operation, Transaction}
use rosetta_images.Services.Interface.{NetworkProvider}
use rosetta_images.Services.Constants.{system_contract_deploy_address, native_as_esdt_identifier}
use rosetta_images.Services.OpTypes
use rosetta_images.Services.Extension.{value_to_custom_amount}
use rosetta_images.Services.Events.{
  EventScDeploy, EventTransferValueOnly, EventEsdt, EventClaimDeveloperRewards,
  get_extended_identifier,
}
use rosetta_images.Services.EventsController.{
  has_any_signal_error, extract_event_sc_deploy, extract_event_transfer_value_only,
  extract_events_claim_developer_rewards,
}
use rosetta_images.Services.EsdtEvents.{
  extract_events_esdt_or_esdt_nft_transfers, extract_events_esdt_local_burn,
  extract_events_esdt_local_mint, extract_events_esdt_wipe, extract_events_esdt_nft_create,
  extract_events_esdt_nft_burn, extract_events_esdt_nft_add_quantity,
}
use rosetta_images.Services.Operations.{new_operation}
use rosetta_images.Services.TxOperations.{
  native_operation, native_transfer, are_claim_developer_rewards_events_enabled,
}

-- All events of a transaction.
pub record TypedEvents : Type 0 where
  pub sc_deploy : List EventScDeploy
  pub transfer_value_only : List EventTransferValueOnly
  pub esdt_transfer : List EventEsdt
  pub local_burn : List EventEsdt
  pub local_mint : List EventEsdt
  pub wipe : List EventEsdt
  pub nft_create : List EventEsdt
  pub nft_burn : List EventEsdt
  pub nft_add_quantity : List EventEsdt
  pub claim_developer_rewards : List EventClaimDeveloperRewards

module _ (provider : NetworkProvider) where
  -- An operation that moves an amount of the token of `event`.
  abbrev pub custom_operation : EventEsdt → Bytes → Bytes → Operation
  custom_operation event address value =
      new_operation OpTypes.custom_transfer address
        (value_to_custom_amount provider value (get_extended_identifier event))

  unfoldable pub extract_operations_from_event_esdt : EventEsdt → List Operation
  extract_operations_from_event_esdt event =
      if event.identifier == native_as_esdt_identifier
      then native_transfer provider OpTypes.transfer event.sender_address event.receiver_address
          event.value
      else if provider.has_custom_currency event.identifier
      then custom_operation event event.sender_address (b'-' ∷ event.value)
        ∷ custom_operation event event.receiver_address event.value
        ∷ []
      else []

  -- Direct deployments: the value goes from the system address on to the contract.
  unfoldable pub operations_of_sc_deploy : ApiTransaction → EventScDeploy → List Operation
  operations_of_sc_deploy tx event =
      if tx.receiver == system_contract_deploy_address
      then native_transfer provider OpTypes.transfer tx.receiver event.contract_address tx.value
      else []

  unfoldable pub operations_of_transfer_value_only : EventTransferValueOnly → List Operation
  operations_of_transfer_value_only event =
      native_transfer provider OpTypes.transfer event.sender event.receiver event.value

  -- The loops over burn, wipe and NFT burn events.
  unfoldable pub operations_of_decrease : EventEsdt → List Operation
  operations_of_decrease event =
      if provider.has_custom_currency event.identifier
      then custom_operation event event.other_address (b'-' ∷ event.value) ∷ []
      else []

  -- The loops over mint, NFT create and NFT add quantity events.
  unfoldable pub operations_of_increase : EventEsdt → List Operation
  operations_of_increase event =
      if provider.has_custom_currency event.identifier
      then custom_operation event event.other_address event.value ∷ []
      else []

  unfoldable pub operations_of_claim_developer_rewards :
      ℕ → List EventClaimDeveloperRewards → List Operation
  operations_of_claim_developer_rewards epoch events =
      if are_claim_developer_rewards_events_enabled provider epoch
      then flat_map
          (λ event.
            native_operation provider OpTypes.developer_rewards event.receiver_address event.value
            ∷ [])
          events
      else []

  -- The ten loops, in the source's order.
  unfoldable pub operations_of_events : ApiTransaction → TypedEvents → List Operation
  operations_of_events tx events =
      flat_map (operations_of_sc_deploy tx) events.sc_deploy
      ++ (flat_map operations_of_transfer_value_only events.transfer_value_only
          ++ (flat_map extract_operations_from_event_esdt events.esdt_transfer
              ++ (flat_map operations_of_decrease events.local_burn
                  ++ (flat_map operations_of_increase events.local_mint
                      ++ (flat_map operations_of_decrease events.wipe
                          ++ (flat_map operations_of_increase events.nft_create
                              ++ (flat_map operations_of_decrease events.nft_burn
                                  ++ (flat_map operations_of_increase events.nft_add_quantity
                                      ++ operations_of_claim_developer_rewards tx.epoch
                                          events.claim_developer_rewards))))))))

module _ ⦃lib : Libraries⦄ (provider : NetworkProvider) where
  -- The ten extractions, which stop at the first error.
  unfoldable pub extract_typed_events : ApiTransaction → Result Failure TypedEvents
  extract_typed_events tx = do
    deploys ← extract_event_sc_deploy provider tx
    value_only ← extract_event_transfer_value_only provider tx
    transfers ← extract_events_esdt_or_esdt_nft_transfers provider tx
    burns ← extract_events_esdt_local_burn tx
    mints ← extract_events_esdt_local_mint tx
    wipes ← extract_events_esdt_wipe provider tx
    creates ← extract_events_esdt_nft_create tx
    nft_burns ← extract_events_esdt_nft_burn tx
    additions ← extract_events_esdt_nft_add_quantity tx
    claims ← extract_events_claim_developer_rewards provider tx
    ok (record {
      sc_deploy = deploys;
      transfer_value_only = value_only;
      esdt_transfer = transfers;
      local_burn = burns;
      local_mint = mints;
      wipe = wipes;
      nft_create = creates;
      nft_burn = nft_burns;
      nft_add_quantity = additions;
      claim_developer_rewards = claims;
    })

  unfoldable pub add_operations_given_transaction_events :
      ApiTransaction → Transaction → Result Failure Transaction
  add_operations_given_transaction_events tx rosetta_tx =
      if has_any_signal_error tx then ok rosetta_tx else do
        events ← extract_typed_events tx
        ok (record rosetta_tx {
          operations = rosetta_tx.operations ++ operations_of_events provider tx events;
        })
