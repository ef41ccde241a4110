-- ===== src/Services/Submission/SignedIntent.antt =====
-- What is signed, parsed, hashed and submitted is the transaction that was prepared.
use rosetta_images.Base.{
  ◌≡◌, List, refl, sym, ◌∙◌, ap, true, false, if◌then◌else◌, [], ◌∷◌, Bytes, Result, ok, err,
  map_err, ◌>>=◌, >>=-eq-ok, ok-injective, ok-of_map_err,
}
use rosetta_images.Text.Hex.{hex_encode}
use rosetta_images.Failure.{Failure}
use rosetta_images.Api.{Libraries, PreparedTx}
use rosetta_images.Rosetta.{Operation, ApiError, TransactionIdentifier}
use rosetta_images.Services.Interface.{NetworkProvider}
use rosetta_images.Services.Errors.{
  err_construction, err_malformed_value, err_offline_mode, err_unable_to_submit_transaction,
  new_err, new_err_factory, new_err_with_original,
}
use rosetta_images.Services.Options.{ConstructionMetadata, validate_metadata}
use rosetta_images.Services.Converters.{
  address_to_account_identifier, hash_to_transaction_identifier,
}
use rosetta_images.Services.ObjectsMaps.{ObjectsMaps, new_construction_metadata}
use rosetta_images.Services.Construction.{create_operations_from_prepared_tx, to_transaction}
use rosetta_images.Services.Submission.{
  ConstructionParseResponse, ConstructionPayloadsResponse, JsonLibraries, SigningPayload,
  construction_combine, construction_hash, construction_parse, construction_payloads,
  construction_submit, get_tx_from_request, to_transaction_json,
}

abbrev pub map_ok : {A B : Type 0} → (A → B) → Result ApiError A → Result ApiError B
map_ok f r = r >>= λ a. ok (f a)

abbrev pub with_signer : Bytes → ConstructionParseResponse → ConstructionParseResponse
with_signer sender response = record response {
  account_identifier_signers = address_to_account_identifier sender ∷ [];
}

abbrev pub to_sign : ⦃json : JsonLibraries⦄ → Bytes → Bytes → List SigningPayload
to_sign ⦃json⦄ sender tx_json =
    record {
      account_identifier = address_to_account_identifier sender;
      signature_type = json.ed25519;
      payload = tx_json;
    }
    ∷ []

abbrev pub identified : Result ApiError Bytes → Result ApiError TransactionIdentifier
identified = map_ok hash_to_transaction_identifier

sender-of_to_transaction :
    (metadata : ConstructionMetadata) {tx : PreparedTx}
    → to_transaction metadata ≡ ok tx
    → tx.sender ≡ metadata.sender
unfolding to_transaction
sender-of_to_transaction metadata h =
    let (_, _, last) = >>=-eq-ok (validate_metadata metadata) _ h in
    ap (λ (t : PreparedTx). t.sender) (sym (ok-injective last))

signers_added :
    (sender : Bytes) (r : Result Failure (List Operation))
    → (map_err (new_err_with_original new_err_factory err_construction) r >>= λ operations.
        ok (record {
          operations = operations;
          account_identifier_signers = address_to_account_identifier sender ∷ [];
        }))
      ≡ map_ok (with_signer sender) (
          map_err (new_err_with_original new_err_factory err_construction) r >>= λ operations.
          ok (record { operations = operations; account_identifier_signers = [] }))
signers_added sender (ok operations) = refl
signers_added sender (err e) = refl

module _ ⦃lib : Libraries⦄ ⦃json : JsonLibraries⦄ (provider : NetworkProvider) where
  -- The payloads are of a transaction of the metadata, which its sender has to sign; parse, hash
  -- and submit take the signed text as this transaction with the signature.
  abbrev pub IsIntentOf :
      ConstructionMetadata → ConstructionPayloadsResponse → Bytes → Bytes → Type 0
  IsIntentOf metadata payloads signature signed =
      (tx : PreparedTx) × (to_transaction metadata ≡ ok tx)
      × (payloads.payloads ≡ to_sign tx.sender payloads.unsigned_transaction)
      × (construction_parse provider true signed
          ≡ map_ok (with_signer tx.sender)
              (construction_parse provider false payloads.unsigned_transaction))
      × (construction_hash provider signed
          ≡ identified (
              map_err (new_err_with_original new_err_factory err_malformed_value) (
                provider.compute_transaction_hash
                  (record tx { signature = hex_encode signature }))))
      × (construction_submit provider signed ≡ (
          if provider.is_offline
          then err (new_err new_err_factory err_offline_mode)
          else identified (
              map_err (new_err_with_original new_err_factory err_unable_to_submit_transaction)
                (provider.send_transaction (record tx { signature = hex_encode signature })))))

module _ ⦃lib : Libraries⦄ ⦃json : JsonLibraries⦄ (provider : NetworkProvider)
    (reads : (tx : PreparedTx) (s : Bytes)
      → json.marshal tx ≡ ok s
      → json.unmarshal s ≡ ok tx) where
  parse-signed :
      (tx : PreparedTx) (signature unsigned signed : Bytes)
      → json.unmarshal unsigned ≡ ok tx
      → json.unmarshal signed ≡ ok (record tx { signature = signature })
      → construction_parse provider true signed
        ≡ map_ok (with_signer tx.sender) (construction_parse provider false unsigned)
  unfolding construction_parse get_tx_from_request create_operations_from_prepared_tx
  parse-signed tx signature unsigned signed e e' =
      rw (e, e') (signers_added tx.sender (create_operations_from_prepared_tx provider tx))

  -- Let JSON read back what it wrote, payloads be given for a map of metadata, and combine accept a
  -- signature of these payloads. Then the map reads as metadata, of which the payloads are a
  -- transaction, and the
  -- sender of the transaction has to sign exactly its JSON; parse reports the operations of the
  -- unsigned transaction for the signed one, with the sender as the signer; and hash and submit
  -- give to the provider that transaction with the signature in hexadecimal, where submit first
  -- refuses in offline mode.
  pub signed_intent :
      {M : Type 0} ⦃maps : ObjectsMaps M⦄ (request_metadata : M)
      (payloads : ConstructionPayloadsResponse) (signature signed : Bytes)
      → construction_payloads request_metadata ≡ ok payloads
      → construction_combine payloads.unsigned_transaction (signature ∷ []) ≡ ok signed
      → (metadata : ConstructionMetadata) × (new_construction_metadata request_metadata
          ≡ ok metadata)
        × IsIntentOf provider metadata payloads signature signed
  unfolding construction_payloads to_transaction_json construction_combine construction_hash
      construction_submit get_tx_from_request
  signed_intent request_metadata payloads signature signed given combined =
      let (metadata, e_metadata, given') =
        >>=-eq-ok
          (map_err (new_err_with_original new_err_factory err_construction)
            (new_construction_metadata request_metadata))
          _ given in
      let (tx_json, e_json, last) =
        >>=-eq-ok
          (map_err (new_err_with_original new_err_factory err_construction)
            (to_transaction_json metadata))
          _ given' in
      let (tx, e_tx, e_marshal) =
        >>=-eq-ok (to_transaction metadata) _
          (ok-of_map_err _ (to_transaction_json metadata) e_json) in
      let shown = sym (ok-injective last) in
      let unsigned = ap (λ (p : ConstructionPayloadsResponse). p.unsigned_transaction) shown in
      let read = ap json.unmarshal unsigned ∙ reads tx tx_json e_marshal in
      let combined' = rw read at combined in
      let read' =
        reads (record tx { signature = hex_encode signature }) signed
          (ok-of_map_err _ _ combined') in
      (
        metadata,
        ok-of_map_err _ (new_construction_metadata request_metadata) e_metadata,
        (
          tx,
          e_tx,
          ap (λ (p : ConstructionPayloadsResponse). p.payloads) shown
              ∙ sym (ap (λ sender. to_sign sender tx_json) (sender-of_to_transaction metadata e_tx))
              ∙ sym (ap (λ u. to_sign tx.sender u) unsigned),
          parse-signed tx (hex_encode signature) payloads.unsigned_transaction signed read read',
          rw read' refl,
          rw read' refl,
        ),
      )
