-- ===== src/Services/Events.antt =====
-- server/services/transactionEvents.go
use rosetta_images.Base.{
  ◌++◌, List, [], ◌∷◌, Bytes, Result, ok, err, is_empty, length, if◌then◌else◌,
}
use rosetta_images.Failure.{Failure, bad_number_of_topics}
use rosetta_images.Text.Decimal.{format}
use rosetta_images.Text.Hex.{hex_encode}
use rosetta_images.Text.BigEndian.{set_bytes}

pub record EventTransferValueOnly : Type 0 where
  pub sender : Bytes
  pub receiver : Bytes
  pub value : Bytes

pub record EventEsdt : Type 0 where
  pub sender_address : Bytes
  pub receiver_address : Bytes
  pub other_address : Bytes
  pub identifier : Bytes
  pub nonce_as_bytes : Bytes
  pub value : Bytes

pub record EventScDeploy : Type 0 where
  pub contract_address : Bytes
  pub deployer_address : Bytes

pub record EventClaimDeveloperRewards : Type 0 where
  pub value : Bytes
  pub receiver_address : Bytes

-- Fields that the source leaves out are empty strings.
unfoldable pub new_event_esdt_from_basic_topics : List Bytes → Result Failure EventEsdt
new_event_esdt_from_basic_topics (identifier ∷ nonce_as_bytes ∷ value_bytes ∷ _) = ok (record {
  sender_address = [];
  receiver_address = [];
  other_address = [];
  identifier = identifier;
  nonce_as_bytes = nonce_as_bytes;
  value = format (set_bytes value_bytes);
})
new_event_esdt_from_basic_topics topics = err (bad_number_of_topics (length topics))

unfoldable pub get_base_identifier : EventEsdt → Bytes
get_base_identifier event = event.identifier

unfoldable pub get_extended_identifier : EventEsdt → Bytes
get_extended_identifier event =
    if is_empty event.nonce_as_bytes
    then event.identifier
    else event.identifier ++ b'-' ∷ hex_encode event.nonce_as_bytes
