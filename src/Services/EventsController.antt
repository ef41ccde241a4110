-- ===== src/Services/EventsController.antt =====
-- server/services/transactionEventsController.go: typed events from the raw events of a transaction.
use rosetta_images.Base.{
  Bool, false, not, Option, none, some, List, [], ◌∷◌, Bytes, Result, ok, err, ◌==◌, bytes_eq,
  nat_eq, ◌&&◌, ◌||◌, ◌>>=◌, if◌then◌else◌, ltb, is_empty, length, get_or, keep, any, traverse,
}
use rosetta_images.Failure.{Failure, cannot_recognize_event}
use rosetta_images.Text.Decimal.{format}
use rosetta_images.Text.BigEndian.{set_bytes}
use rosetta_images.Text.Split.{has_prefix}
use rosetta_images.Api.{Libraries, ApiTransaction, Event}
use rosetta_images.Services.Interface.{NetworkProvider}
use rosetta_images.Services.Constants.{sending_value_to_non_payable_contract_data_prefix}
use rosetta_images.Services.EventNames
use rosetta_images.Services.Events.{
  EventScDeploy, EventTransferValueOnly, EventClaimDeveloperRewards,
}

-- `tx.Logs.Events`, empty if there are no logs
abbrev pub events_of_logs : Option (List Event) → List Event
events_of_logs none = []
events_of_logs (some events) = events

unfoldable pub has_events : ApiTransaction → Bool
has_events tx = not (is_empty (events_of_logs tx.logs))

unfoldable pub find_many_events_by_identifier : ApiTransaction → Bytes → List Event
find_many_events_by_identifier tx identifier =
    if has_events tx then keep (λ e. e.identifier == identifier) (events_of_logs tx.logs) else []

unfoldable pub event_has_topic : Event → Bytes → Bool
event_has_topic event topic = any (λ t. t == topic) event.topics

module _ ⦃lib : Libraries⦄ where
  unfoldable pub has_any_signal_error : ApiTransaction → Bool
  has_any_signal_error tx =
      if has_events tx
      then any (λ e. e.identifier == lib.signal_error_operation) (events_of_logs tx.logs)
      else false

  unfoldable pub has_signal_error_of_sending_value_to_non_payable_contract : ApiTransaction → Bool
  has_signal_error_of_sending_value_to_non_payable_contract tx =
      if has_events tx
      then any
          (λ e.
            e.identifier == lib.signal_error_operation
            && has_prefix e.event_data sending_value_to_non_payable_contract_data_prefix)
          (events_of_logs tx.logs)
      else false

  unfoldable pub has_signal_error_of_meta_transaction_is_invalid : ApiTransaction → Bool
  has_signal_error_of_meta_transaction_is_invalid tx =
      if has_events tx
      then any
          (λ e.
            e.identifier == lib.signal_error_operation
            && (event_has_topic e EventNames.topic_invalid_meta_transaction
                || event_has_topic e EventNames.topic_invalid_meta_transaction_not_enough_gas))
          (events_of_logs tx.logs)
      else false

abbrev pub push_effective :
    Option EventTransferValueOnly → List EventTransferValueOnly → List EventTransferValueOnly
push_effective none rest = rest
push_effective (some typed) rest = typed ∷ rest

module _ (provider : NetworkProvider) where
  unfoldable pub typed_sc_deploy : Event → Result Failure EventScDeploy
  typed_sc_deploy event =
      let num_topics = length event.topics in
      if ltb num_topics EventNames.num_topics_sc_deploy_before_sirius
      then err (cannot_recognize_event num_topics)
      else ok (record {
        contract_address = event.address;
        deployer_address = provider.convert_pub_key_to_address (get_or event.topics 1 []);
      })

  unfoldable pub effective_transfer :
      Event → Bytes → Result Failure Bytes → Result Failure (Option EventTransferValueOnly)
  effective_transfer event receiver_pub_key (err e) = err e
  effective_transfer event receiver_pub_key (ok sender_pub_key) =
      if provider.compute_shard_id_of_pub_key sender_pub_key
        == provider.compute_shard_id_of_pub_key receiver_pub_key
      then ok (
          some (record {
            sender = event.address;
            receiver = provider.convert_pub_key_to_address receiver_pub_key;
            value = format (set_bytes (get_or event.topics 0 []));
          }))
      else ok none

  unfoldable pub decide_effective_event_transfer_value_only_after_sirius :
      Event → Result Failure (Option EventTransferValueOnly)
  unfolding effective_transfer
  decide_effective_event_transfer_value_only_after_sirius event =
      let num_topics = length event.topics in
      if not (num_topics == EventNames.num_topics_transfer_value_only_after_sirius)
      then err (cannot_recognize_event num_topics)
      else if is_empty (get_or event.topics 0 [])
      then ok none
      else if not (event.event_data == EventNames.data_execute_on_dest_context)
          && not (event.event_data == EventNames.data_async_call)
      then ok none
      else effective_transfer event (get_or event.topics 1 [])
          (provider.convert_address_to_pub_key event.address)

  unfoldable pub collect_effective : List Event → Result Failure (List EventTransferValueOnly)
  collect_effective [] = ok []
  collect_effective (event ∷ events) = do
    typed ← decide_effective_event_transfer_value_only_after_sirius event
    rest ← collect_effective events
    ok (push_effective typed rest)

  unfoldable pub extract_event_transfer_value_only :
      ApiTransaction → Result Failure (List EventTransferValueOnly)
  unfolding collect_effective
  extract_event_transfer_value_only tx =
      if not (provider.is_release_sirius_active tx.epoch)
      then ok []
      else collect_effective (find_many_events_by_identifier tx EventNames.transfer_value_only)

  unfoldable pub typed_claim_developer_rewards : Event → Result Failure EventClaimDeveloperRewards
  typed_claim_developer_rewards event =
      let num_topics = length event.topics in
      if not (num_topics == EventNames.num_topics_claim_developer_rewards)
      then err (cannot_recognize_event num_topics)
      else ok (record {
        value = format (set_bytes (get_or event.topics 0 []));
        receiver_address = provider.convert_pub_key_to_address (get_or event.topics 1 []);
      })

module _ ⦃lib : Libraries⦄ (provider : NetworkProvider) where
  unfoldable pub extract_event_sc_deploy : ApiTransaction → Result Failure (List EventScDeploy)
  extract_event_sc_deploy tx =
      traverse (typed_sc_deploy provider)
        (find_many_events_by_identifier tx lib.sc_deploy_identifier)

  unfoldable pub extract_events_claim_developer_rewards :
      ApiTransaction → Result Failure (List EventClaimDeveloperRewards)
  extract_events_claim_developer_rewards tx =
      traverse (typed_claim_developer_rewards provider)
        (find_many_events_by_identifier tx lib.builtin_claim_developer_rewards)
