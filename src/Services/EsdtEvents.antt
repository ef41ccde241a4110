-- ===== src/Services/EsdtEvents.antt =====
-- server/services/transactionEventsController.go: the events of ESDT operations.
use rosetta_images.Base.{
  ℕ, zero, suc, ◌+◌, ◌-◌, ◌*◌, ◌/◌, ◌%◌, not, List, [], ◌∷◌, ◌++◌, Bytes, Result, ok, err, ◌==◌,
  nat_eq, ◌||◌, ◌>>=◌, if◌then◌else◌, length, get_or, take, drop, traverse,
}
use rosetta_images.Failure.{Failure, cannot_recognize_event}
use rosetta_images.Api.{Libraries, ApiTransaction, Event}
use rosetta_images.Services.Interface.{NetworkProvider}
use rosetta_images.Services.EventNames
use rosetta_images.Services.Events.{EventEsdt, new_event_esdt_from_basic_topics}
use rosetta_images.Services.EventsController.{find_many_events_by_identifier}

-- An event of one account: `otherAddress` is the address of the event.
unfoldable pub typed_local : ℕ → Event → Result Failure EventEsdt
typed_local expected event =
    if not (length event.topics == expected)
    then err (cannot_recognize_event (length event.topics))
    else do
      typed ← new_event_esdt_from_basic_topics event.topics
      ok (record typed { other_address = event.address })

module _ ⦃lib : Libraries⦄ where
  unfoldable pub extract_events_esdt_local_burn : ApiTransaction → Result Failure (List EventEsdt)
  extract_events_esdt_local_burn tx =
      traverse (typed_local EventNames.num_topics_esdt_local_burn)
        (find_many_events_by_identifier tx lib.builtin_esdt_local_burn)

  unfoldable pub extract_events_esdt_local_mint : ApiTransaction → Result Failure (List EventEsdt)
  extract_events_esdt_local_mint tx =
      traverse (typed_local EventNames.num_topics_esdt_local_mint)
        (find_many_events_by_identifier tx lib.builtin_esdt_local_mint)

unfoldable pub extract_events_esdt_nft_create : ApiTransaction → Result Failure (List EventEsdt)
extract_events_esdt_nft_create tx =
    traverse (typed_local EventNames.num_topics_esdt_nft_create)
      (find_many_events_by_identifier tx EventNames.esdt_nft_create)

unfoldable pub extract_events_esdt_nft_burn : ApiTransaction → Result Failure (List EventEsdt)
extract_events_esdt_nft_burn tx =
    traverse (typed_local EventNames.num_topics_esdt_nft_burn)
      (find_many_events_by_identifier tx EventNames.esdt_nft_burn)

unfoldable pub extract_events_esdt_nft_add_quantity :
    ApiTransaction → Result Failure (List EventEsdt)
extract_events_esdt_nft_add_quantity tx =
    traverse (typed_local EventNames.num_topics_esdt_nft_add_quantity)
      (find_many_events_by_identifier tx EventNames.esdt_nft_add_quantity)

module _ (provider : NetworkProvider) where
  unfoldable pub typed_wipe : Event → Result Failure EventEsdt
  typed_wipe event =
      if not (length event.topics == EventNames.num_topics_esdt_wipe)
      then err (cannot_recognize_event (length event.topics))
      else do
        typed ← new_event_esdt_from_basic_topics event.topics
        ok (record typed {
          other_address = provider.convert_pub_key_to_address (get_or event.topics 3 []);
        })

  unfoldable pub extract_events_esdt_wipe :
      ⦃lib : Libraries⦄ → ApiTransaction → Result Failure (List EventEsdt)
  extract_events_esdt_wipe ⦃lib⦄ tx =
      traverse typed_wipe (find_many_events_by_identifier tx lib.builtin_esdt_wipe)

  unfoldable pub typed_transfer : Event → Result Failure EventEsdt
  typed_transfer event =
      if not (length event.topics == EventNames.num_topics_esdt_transfer)
      then err (cannot_recognize_event (length event.topics))
      else do
        typed ← new_event_esdt_from_basic_topics event.topics
        ok (record typed {
          receiver_address = provider.convert_pub_key_to_address (get_or event.topics 3 []);
          sender_address = event.address;
        })

  -- The rounds left, and the index `i` of the next transfer.
  unfoldable pub transfers_from : ℕ → ℕ → Bytes → Event → Result Failure (List EventEsdt)
  transfers_from zero i receiver event = ok []
  transfers_from (suc rounds) i receiver event = do
    typed ←
        new_event_esdt_from_basic_topics
          (take 3 (drop (i * EventNames.num_topics_per_transfer) event.topics))
    rest ← transfers_from rounds (i + 1) receiver event
    ok (record typed { receiver_address = receiver; sender_address = event.address } ∷ rest)

  -- Go's remainder of -1 by 3 is -1, so that an event without topics is refused.
  unfoldable pub typed_multi_transfer : Event → Result Failure (List EventEsdt)
  unfolding transfers_from
  typed_multi_transfer event =
      let num_topics = length event.topics in
      let num_topics_except_last = num_topics - 1 in
      if num_topics == 0 || not (num_topics_except_last % EventNames.num_topics_per_transfer == 0)
      then err (cannot_recognize_event num_topics)
      else transfers_from (num_topics_except_last / EventNames.num_topics_per_transfer) 0
          (provider.convert_pub_key_to_address (get_or event.topics num_topics_except_last []))
          event

  unfoldable pub multi_transfers : List Event → Result Failure (List EventEsdt)
  multi_transfers [] = ok []
  multi_transfers (event ∷ events) = do
    typed ← typed_multi_transfer event
    rest ← multi_transfers events
    ok (typed ++ rest)

  unfoldable pub extract_events_esdt_or_esdt_nft_transfers :
      ApiTransaction → Result Failure (List EventEsdt)
  extract_events_esdt_or_esdt_nft_transfers tx = do
    single ← traverse typed_transfer (
        find_many_events_by_identifier tx EventNames.esdt_transfer
        ++ find_many_events_by_identifier tx EventNames.esdt_nft_transfer)
    multi ← multi_transfers (find_many_events_by_identifier tx EventNames.multi_esdt_nft_transfer)
    ok (single ++ multi)
