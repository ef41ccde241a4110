-- ===== src/Services/Endpoints/Answers.antt =====
-- server/services/constructionService.go: when the whole flow of a transfer answers.
use rosetta_images.Base.{
  Bool, Result, err, if◌then◌else◌, List, [], ℕ, ◌≡◌, ◌≢◌, refl, ap, ◌∙◌, false, arith, Bytes, ok,
  is_empty, nat_eq,
}
use rosetta_images.Text.Decimal.{format, format-IsDecimal}
use rosetta_images.Text.Hex.{AllBytes}
use rosetta_images.Text.Split.{Lacks}
use rosetta_images.Api.{PreparedTx, Libraries}
use rosetta_images.Rosetta.{Amount, ApiError, Operation}
use rosetta_images.Resources.{AccountOnBlock}
use rosetta_images.Services.Interface.{NetworkProvider}
use rosetta_images.Services.Extension.{is_native_currency_symbol}
use rosetta_images.Services.Errors.{ErrFactory}
use rosetta_images.Services.Options.{ConstructionOptions, ConstructionMetadata}
use rosetta_images.Services.Constants.{amount_zero}
use rosetta_images.Services.Construction.{
  prepared_metadata, to_transaction, create_operations_from_prepared_tx,
}
use rosetta_images.Services.ObjectsMaps.{
  IsExact, IsExactJson, IsText, ObjectsMaps, new_construction_metadata, new_construction_options,
  new_construction_preprocess_metadata, to_objects_map,
}
use rosetta_images.Services.Endpoints.{construction_metadata, construction_preprocess}
use rosetta_images.Services.Submission.{
  ConstructionPayloadsResponse, JsonLibraries, construction_parse, construction_payloads,
  get_tx_from_request, to_transaction_json,
}
use rosetta_images.Services.Submission.SignedIntent.{to_sign}
use rosetta_images.Services.Construction.Intent.{transfer_of_token}
use rosetta_images.Services.Construction.RoundTrip.{
  no_metadata, KeepsSymbol, construction_round_trip,
}
use rosetta_images.Services.Construction.Answers.{
  asked_metadata, asked_options, estimate, metadata_answers, preprocess_answers, tx_answers, tx_of,
}

when_online :
    {A : Type 0} (offline : Bool) (e : ApiError) (r : Result ApiError A) {a : A}
    → offline ≡ false
    → r ≡ ok a
    → (if offline then err e else r) ≡ ok a
when_online offline e r online h = rw online h

module _ {M : Type 0} (maps : ObjectsMaps M) (json : JsonLibraries) where
  abbrev pub IsExactTx : PreparedTx → Type 0
  IsExactTx tx =
      IsText maps tx.sender
      × IsText maps tx.receiver
      × IsText maps tx.value
      × IsText maps tx.chain_id
      × IsExact tx.nonce
      × IsExact tx.gas_limit
      × IsExact tx.gas_price
      × IsExact tx.version
      × (tx.signature ≡ [])

  -- JSON writes a transaction with such texts and numbers, and reads it back.
  abbrev pub WritesTx : Type 0
  WritesTx =
      (tx : PreparedTx)
      → IsExactTx tx
      → (s : Bytes) × (json.marshal tx ≡ ok s) × (json.unmarshal s ≡ ok tx)

-- One transfer of `amount` units of a token, as a caller may ask the server for it: the texts are
-- UTF-8 and, but for the amount, not empty, the token is not the native currency and its symbol is
-- bytes that the provider keeps, the provider knows the account of the sender, the estimated gas
-- limit and the minimum gas price are not zero, and these and the nonce are below 2 ^ 53.
pub record IsServed ⦃lib : Libraries⦄ {M : Type 0} (maps : ObjectsMaps M)
    (provider : NetworkProvider) (account : AccountOnBlock) (sender receiver token : Bytes) (n : ℕ)
    : Type 0 where
  pub sender_IsText : IsText maps sender
  pub receiver_IsText : IsText maps receiver
  pub token_IsText : IsText maps token
  pub network_IsText : IsText maps provider.get_network_config.network_id
  pub sender_given : is_empty sender ≡ false
  pub receiver_given : is_empty receiver ≡ false
  pub token_given : is_empty token ≡ false
  pub network_given : is_empty provider.get_network_config.network_id ≡ false
  pub token_AllBytes : AllBytes token
  pub token_KeepsSymbol : KeepsSymbol provider token
  pub not_native : is_native_currency_symbol provider token ≡ false
  pub not_zero : n ≢ 0
  pub found : provider.get_account sender ≡ ok account
  pub nonce_IsExact : IsExact account.account.nonce
  pub gas_price_given : provider.get_network_config.min_gas_price ≢ 0
  pub gas_price_IsExact : IsExact provider.get_network_config.min_gas_price
  pub gas_limit_given : estimate provider sender receiver token (format n) ≢ 0
  pub gas_limit_IsExact : IsExact (estimate provider sender receiver token (format n))

module _ ⦃lib : Libraries⦄ ⦃json : JsonLibraries⦄ {M : Type 0} ⦃maps : ObjectsMaps M⦄
    (exact : IsExactJson maps) (writes : WritesTx maps json) (factory : ErrFactory)
    (provider : NetworkProvider) (account : AccountOnBlock) (sender receiver token : Bytes) (n : ℕ)
    (served : IsServed maps provider account sender receiver token n) where
  abbrev asked : ConstructionOptions
  asked = asked_options sender receiver token (format n)

  abbrev metadata : ConstructionMetadata
  metadata = asked_metadata provider account sender receiver token (format n)

  preprocessed :
      (request_metadata options : M)
      → new_construction_preprocess_metadata request_metadata ≡ ok no_metadata
      → to_objects_map maps.marshal_options asked ≡ ok options
      → construction_preprocess factory provider request_metadata
          (transfer_of_token provider sender receiver token (format n))
        ≡ ok options
  unfolding construction_preprocess
  preprocessed request_metadata options empty written =
      rw
        (
          empty,
          preprocess_answers factory provider sender receiver token n served.sender_given
              served.receiver_given served.token_given served.not_zero served.token_KeepsSymbol,
          written,
        )
        refl

  metadata_given :
      (options metadata_map : M)
      → provider.is_offline ≡ false
      → new_construction_options options ≡ ok asked
      → to_objects_map maps.marshal_metadata metadata ≡ ok metadata_map
      → (suggested : Amount) × (prepared_metadata provider factory asked ≡ ok (metadata, suggested))
        × (construction_metadata factory provider options ≡ ok (metadata_map, suggested))
  unfolding construction_metadata
  metadata_given options metadata_map online read written =
      let (suggested, h) =
        metadata_answers provider factory sender receiver token (format n) account served.found
          served.not_native in
      (suggested, h, when_online _ _ _ online (rw (read, h, written) refl))

  metadata-to_transaction : to_transaction metadata ≡ ok (tx_of metadata)
  metadata-to_transaction =
      tx_answers metadata served.sender_given served.receiver_given served.gas_limit_given
        served.gas_price_given refl served.network_given

  payloads_given :
      (metadata_map : M) (tx_json : Bytes)
      → new_construction_metadata metadata_map ≡ ok metadata
      → json.marshal (tx_of metadata) ≡ ok tx_json
      → (payloads : ConstructionPayloadsResponse) × (construction_payloads metadata_map
          ≡ ok payloads)
        × (payloads.unsigned_transaction ≡ tx_json)
  unfolding construction_payloads to_transaction_json
  payloads_given metadata_map tx_json read written = (
    record { unsigned_transaction = tx_json; payloads = to_sign sender tx_json },
    rw (read, metadata-to_transaction, written) refl,
    refl,
  )

  parsed :
      (tx_json : Bytes) (operations : List Operation)
      → json.unmarshal tx_json ≡ ok (tx_of metadata)
      → create_operations_from_prepared_tx provider (tx_of metadata) ≡ ok operations
      → construction_parse provider false tx_json
        ≡ ok (record { operations = operations; account_identifier_signers = [] })
  unfolding construction_parse get_tx_from_request
  parsed tx_json operations read h = rw (read, h) refl

  -- The whole flow of a transfer of `n` units of a token answers, in online mode. Let JSON carry
  -- options, metadata and transactions unchanged where their strings are UTF-8 and their numbers
  -- below 2 ^ 53; let the transfer be one that can be served: the texts are UTF-8 and not empty,
  -- the token is not the native currency and its symbol is bytes that the provider keeps, `n` is not
  -- zero, the provider knows the account of the sender, the estimated gas limit and the minimum gas
  -- price are not zero, and these and the account's nonce are below 2 ^ 53. If the metadata of the
  -- request are empty and the name of the built-in function has no separator, then preprocess,
  -- metadata and payloads answer, one after the other, and parse reports the operations of the
  -- transfer from the unsigned transaction.
  pub construction_answers :
      (request_metadata : M)
      → Lacks b'@' lib.builtin_esdt_transfer
      → provider.is_offline ≡ false
      → new_construction_preprocess_metadata request_metadata ≡ ok no_metadata
      → (options metadata_map : M) × (suggested : Amount)
        × (payloads : ConstructionPayloadsResponse) × (construction_preprocess factory provider
              request_metadata
              (transfer_of_token provider sender receiver token (format n))
            ≡ ok options)
        × (construction_metadata factory provider options ≡ ok (metadata_map, suggested))
        × (construction_payloads metadata_map ≡ ok payloads)
        × (construction_parse provider false payloads.unsigned_transaction
            ≡ ok (record {
              operations = transfer_of_token provider sender receiver token (format n);
              account_identifier_signers = [];
            }))
  construction_answers request_metadata lacks online empty =
      let decimal = exact.decimal_IsText (format n) (format-IsDecimal n) in
      let zero_text = exact.decimal_IsText amount_zero (ground arith) in
      let (options, written, read) = exact.options_carried asked (
        served.sender_IsText,
        served.receiver_IsText,
        decimal,
        served.token_IsText,
        ground arith,
        ground arith,
      ) in
      let (metadata_map, written', read') = exact.metadata_carried metadata (
        served.sender_IsText,
        served.receiver_IsText,
        zero_text,
        served.token_IsText,
        served.network_IsText,
        served.nonce_IsExact,
        served.gas_limit_IsExact,
        served.gas_price_IsExact,
        ground arith,
      ) in
      let (suggested, prepared, answered) =
        metadata_given options metadata_map online read written' in
      let (tx_json, marshalled, unmarshalled) = writes (tx_of metadata) (
        served.sender_IsText,
        served.receiver_IsText,
        zero_text,
        served.network_IsText,
        served.nonce_IsExact,
        served.gas_limit_IsExact,
        served.gas_price_IsExact,
        ground arith,
        refl,
      ) in
      let (payloads, paid, shown) = payloads_given metadata_map tx_json read' marshalled in
      let operations =
        construction_round_trip provider factory sender receiver token n asked metadata suggested
          (tx_of metadata) lacks served.token_AllBytes served.token_KeepsSymbol served.not_native
          (preprocess_answers factory provider sender receiver token n served.sender_given
            served.receiver_given served.token_given served.not_zero served.token_KeepsSymbol)
          prepared metadata-to_transaction in
      (
        options,
        metadata_map,
        suggested,
        payloads,
        preprocessed request_metadata options empty written,
        answered,
        paid,
        ap (construction_parse provider false) shown ∙ parsed tx_json _ unmarshalled operations,
      )
