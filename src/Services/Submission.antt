-- ===== src/Services/Submission.antt =====
-- server/services/constructionService.go: the calls that carry a transaction as JSON, from its
-- payloads to its submission.
pub mod SignedIntent
use rosetta_images.Base.{
  Bool, not, if◌then◌else◌, List, [], ◌∷◌, Bytes, Result, ok, err, map_err, ◌>>=◌, ◌==◌, bytes_eq,
  codes,
}
use rosetta_images.Text.Hex.{hex_encode}
use rosetta_images.Failure.{Failure}
use rosetta_images.Api.{Libraries, PreparedTx}
use rosetta_images.Rosetta.{AccountIdentifier, ApiError, Operation, TransactionIdentifier}
use rosetta_images.Services.Interface.{NetworkProvider}
use rosetta_images.Services.Errors.{
  err_construction, err_invalid_input_param, err_malformed_value, err_offline_mode,
  err_unable_to_submit_transaction, err_unsupported_curve_type, new_err, new_err_factory,
  new_err_with_original,
}
use rosetta_images.Services.Options.{ConstructionMetadata}
use rosetta_images.Services.Converters.{
  address_to_account_identifier, hash_to_transaction_identifier,
}
use rosetta_images.Services.ObjectsMaps.{ObjectsMaps, new_construction_metadata}
use rosetta_images.Services.Construction.{create_operations_from_prepared_tx, to_transaction}

-- `json.Marshal` and `json.Unmarshal` of a transaction, and two constants of rosetta-sdk-go.
pub record JsonLibraries : Type 0 where
  pub marshal : PreparedTx → Result Failure Bytes
  pub unmarshal : Bytes → Result Failure PreparedTx
  pub edwards25519 : Bytes
  pub ed25519 : Bytes

-- types.SigningPayload
pub record SigningPayload : Type 0 where
  pub account_identifier : AccountIdentifier
  pub signature_type : Bytes
  pub payload : Bytes

pub record ConstructionPayloadsResponse : Type 0 where
  pub unsigned_transaction : Bytes
  pub payloads : List SigningPayload

pub record ConstructionParseResponse : Type 0 where
  pub operations : List Operation
  pub account_identifier_signers : List AccountIdentifier

module _ ⦃json : JsonLibraries⦄ where
  unfoldable pub to_transaction_json : ConstructionMetadata → Result Failure Bytes
  to_transaction_json metadata = to_transaction metadata >>= json.marshal

  abbrev payloads_response : ConstructionMetadata → Bytes → ConstructionPayloadsResponse
  payloads_response metadata tx_json = record {
    unsigned_transaction = tx_json;
    payloads =
        record {
          account_identifier = address_to_account_identifier metadata.sender;
          signature_type = json.ed25519;
          payload = tx_json;
        }
        ∷ [];
  }

  -- The map of the metadata of the request is read first.
  unfoldable pub construction_payloads :
      {M : Type 0} ⦃maps : ObjectsMaps M⦄ → M → Result ApiError ConstructionPayloadsResponse
  construction_payloads request_metadata = do
    metadata ←
        map_err (new_err_with_original new_err_factory err_construction)
          (new_construction_metadata request_metadata)
    tx_json ←
        map_err (new_err_with_original new_err_factory err_construction)
          (to_transaction_json metadata)
    ok (payloads_response metadata tx_json)

  unfoldable pub get_tx_from_request : Bytes → Result Failure PreparedTx
  get_tx_from_request tx_string = json.unmarshal tx_string

  -- The transaction of a request, or that the value is malformed.
  abbrev pub requested_tx : Bytes → Result ApiError PreparedTx
  requested_tx tx_string =
      map_err (new_err_with_original new_err_factory err_malformed_value)
        (get_tx_from_request tx_string)

  -- Exactly one signature is taken.
  abbrev pub signed_with : PreparedTx → List Bytes → Result ApiError PreparedTx
  signed_with tx (signature ∷ []) = ok (record tx { signature = hex_encode signature })
  signed_with tx _ = err (new_err new_err_factory err_invalid_input_param)

  unfoldable pub construction_combine : Bytes → List Bytes → Result ApiError Bytes
  construction_combine unsigned_transaction signatures = do
    tx ← requested_tx unsigned_transaction
    signed_tx ← signed_with tx signatures
    map_err (new_err_with_original new_err_factory err_malformed_value) (json.marshal signed_tx)

  module _ (provider : NetworkProvider) where
    unfoldable pub construction_derive : Bytes → Bytes → Result ApiError AccountIdentifier
    construction_derive curve_type pub_key =
        if not (curve_type == json.edwards25519)
        then err (new_err new_err_factory err_unsupported_curve_type)
        else ok (address_to_account_identifier (provider.convert_pub_key_to_address pub_key))

    unfoldable pub construction_hash : Bytes → Result ApiError TransactionIdentifier
    construction_hash signed_transaction = do
      tx ← requested_tx signed_transaction
      tx_hash ←
          map_err (new_err_with_original new_err_factory err_malformed_value)
            (provider.compute_transaction_hash tx)
      ok (hash_to_transaction_identifier tx_hash)

    unfoldable pub construction_submit : Bytes → Result ApiError TransactionIdentifier
    construction_submit signed_transaction =
        if provider.is_offline then err (new_err new_err_factory err_offline_mode) else do
          tx ← requested_tx signed_transaction
          tx_hash ←
              map_err (new_err_with_original new_err_factory err_unable_to_submit_transaction)
                (provider.send_transaction tx)
          ok (hash_to_transaction_identifier tx_hash)

  module _ ⦃lib : Libraries⦄ (provider : NetworkProvider) where
    abbrev signers_of : Bool → PreparedTx → List AccountIdentifier
    signers_of signed tx = if signed then address_to_account_identifier tx.sender ∷ [] else []

    unfoldable pub construction_parse : Bool → Bytes → Result ApiError ConstructionParseResponse
    construction_parse signed transaction = do
      tx ← requested_tx transaction
      operations ←
          map_err (new_err_with_original new_err_factory err_construction)
            (create_operations_from_prepared_tx provider tx)
      ok (record { operations = operations; account_identifier_signers = signers_of signed tx })
