-- ===== src/Tests/Submission.antt =====
-- A transaction from its payloads to its submission, with texts that carry their lengths for JSON.
use rosetta_images.Base.{
  ◌≡◌, refl, true, ap, subst, ok-injective, [], ◌∷◌, ◌++◌, Bytes, Result, ok, err, codes, take,
  drop, length,
}
use rosetta_images.Text.Hex.{hex_encode, hex_digit}
use rosetta_images.Failure.{Failure, bad_json}
use rosetta_images.Api.{PreparedTx}
use rosetta_images.Services.Options.{ConstructionMetadata, ConstructionOptions, validate_metadata}
use rosetta_images.Services.ObjectsMaps.{
  IsExactJson, ObjectsMaps, from_objects_map, new_construction_metadata, new_construction_options,
  to_objects_map,
}
use rosetta_images.Services.Endpoints.Answers.{WritesTx}
use rosetta_images.Services.Construction.{to_transaction}
use rosetta_images.Services.Submission.{
  ConstructionPayloadsResponse, JsonLibraries, construction_combine, construction_payloads,
  get_tx_from_request, to_transaction_json,
}
use rosetta_images.Services.Submission.SignedIntent.{IsIntentOf, signed_intent, to_sign}
use rosetta_images.Tests.Sample.{sample_libraries, sample_provider}

take-append : (s r : Bytes) → take (length s) (s ++ r) ≡ s
take-append [] r = refl
take-append (b ∷ s) r = ap (λ t. b ∷ t) (take-append s r)

drop-append : (s r : Bytes) → drop (length s) (s ++ r) ≡ r
drop-append [] r = refl
drop-append (b ∷ s) r = drop-append s r

abbrev pub write : Bytes → Bytes → Bytes
write s rest = length s ∷ (s ++ rest)

abbrev pub taken : Bytes → Bytes
taken [] = []
taken (n ∷ s) = take n s

abbrev pub left : Bytes → Bytes
left [] = []
left (n ∷ s) = drop n s

abbrev pub encode : PreparedTx → Bytes
encode tx =
    tx.nonce
    ∷ tx.gas_limit
    ∷ tx.gas_price
    ∷ tx.version
    ∷ write tx.sender (
        write tx.receiver
          (write tx.value (write tx.tx_data (write tx.signature (write tx.chain_id [])))))

abbrev pub decode : Bytes → Result Failure PreparedTx
decode (nonce ∷ gas_limit ∷ gas_price ∷ version ∷ s) = ok (record {
  sender = taken s;
  receiver = taken (left s);
  nonce = nonce;
  value = taken (left (left s));
  gas_limit = gas_limit;
  gas_price = gas_price;
  tx_data = taken (left (left (left s)));
  signature = taken (left (left (left (left s))));
  chain_id = taken (left (left (left (left (left s)))));
  version = version;
})
decode _ = err bad_json

instance abbrev pub sample_json : JsonLibraries
sample_json = record {
  marshal = λ tx. ok (encode tx);
  unmarshal = decode;
  edwards25519 = codes "edwards25519";
  ed25519 = codes "ed25519";
}

abbrev encode_options : ConstructionOptions → Bytes
encode_options options =
    options.gas_limit
    ∷ options.gas_price
    ∷ write options.sender (
        write options.receiver
          (write options.amount (write options.currency_symbol (write options.tx_data []))))

abbrev decode_options : Bytes → Result Failure ConstructionOptions
decode_options (gas_limit ∷ gas_price ∷ s) = ok (record {
  sender = taken s;
  receiver = taken (left s);
  amount = taken (left (left s));
  currency_symbol = taken (left (left (left s)));
  gas_limit = gas_limit;
  gas_price = gas_price;
  tx_data = taken (left (left (left (left s))));
})
decode_options _ = err bad_json

abbrev encode_metadata : ConstructionMetadata → Bytes
encode_metadata metadata =
    metadata.nonce
    ∷ metadata.gas_limit
    ∷ metadata.gas_price
    ∷ metadata.version
    ∷ write metadata.sender (
        write metadata.receiver (
          write metadata.amount
            (write metadata.currency_symbol (write metadata.tx_data (write metadata.chain_id [])))))

abbrev decode_metadata : Bytes → Result Failure ConstructionMetadata
decode_metadata (nonce ∷ gas_limit ∷ gas_price ∷ version ∷ s) = ok (record {
  sender = taken s;
  receiver = taken (left s);
  nonce = nonce;
  amount = taken (left (left s));
  currency_symbol = taken (left (left (left s)));
  gas_limit = gas_limit;
  gas_price = gas_price;
  tx_data = taken (left (left (left (left s))));
  chain_id = taken (left (left (left (left (left s)))));
  version = version;
})
decode_metadata _ = err bad_json

-- A map is its text.
instance abbrev pub sample_maps : ObjectsMaps Bytes
sample_maps = record {
  marshal_map = λ obj. ok obj;
  unmarshal_map = λ s. ok s;
  marshal_options = λ options. ok (encode_options options);
  unmarshal_options = decode_options;
  marshal_metadata = λ metadata. ok (encode_metadata metadata);
  unmarshal_metadata = decode_metadata;
  is_valid_utf8 = λ s. true;
}

decode_options-encode_options :
    (options : ConstructionOptions) → decode_options (encode_options options) ≡ ok options
decode_options-encode_options options = simp (take-append, drop-append)

decode_metadata-encode_metadata :
    (metadata : ConstructionMetadata) → decode_metadata (encode_metadata metadata) ≡ ok metadata
decode_metadata-encode_metadata metadata = simp (take-append, drop-append)

pub sample-IsExactJson : IsExactJson sample_maps
unfolding to_objects_map from_objects_map new_construction_options new_construction_metadata
sample-IsExactJson = record {
  decimal_IsText = λ s h. refl;
  options_carried =
      λ options h. (encode_options options, refl, decode_options-encode_options options);
  metadata_carried =
      λ metadata h. (encode_metadata metadata, refl, decode_metadata-encode_metadata metadata);
}

decode-encode : (tx : PreparedTx) → decode (encode tx) ≡ ok tx
decode-encode tx = simp (take-append, drop-append)

pub sample-WritesTx : WritesTx sample_maps sample_json
sample-WritesTx = λ tx h. (encode tx, refl, decode-encode tx)

reads :
    (tx : PreparedTx) (s : Bytes)
    → Path (Result Failure Bytes) (ok (encode tx)) (ok s)
    → decode s ≡ ok tx
reads tx s h = subst (λ t. decode t ≡ ok tx) (ok-injective h) (decode-encode tx)

abbrev metadata : ConstructionMetadata
metadata = record {
  sender = codes "alice";
  receiver = codes "bob";
  nonce = 4;
  amount = codes "5";
  currency_symbol = codes "XeGLD";
  gas_limit = 50;
  gas_price = 1000;
  tx_data = [];
  chain_id = codes "T";
  version = 1;
}

abbrev tx : PreparedTx
tx = record {
  sender = codes "alice";
  receiver = codes "bob";
  nonce = 4;
  value = codes "5";
  gas_limit = 50;
  gas_price = 1000;
  tx_data = [];
  signature = [];
  chain_id = codes "T";
  version = 1;
}

abbrev payloads : ConstructionPayloadsResponse
payloads = record {
  unsigned_transaction = encode tx;
  payloads = to_sign (codes "alice") (encode tx);
}

abbrev signed : Bytes
signed = encode (record tx { signature = codes "2a" })

payloads_run : construction_payloads (encode_metadata metadata) ≡ ok payloads
unfolding construction_payloads to_transaction_json to_transaction validate_metadata
    new_construction_metadata from_objects_map
payloads_run = refl

combine_run : construction_combine (encode tx) ((42 ∷ []) ∷ []) ≡ ok signed
unfolding construction_combine get_tx_from_request hex_encode hex_digit
combine_run = refl

signed_intent_example :
    (m : ConstructionMetadata) × (new_construction_metadata (encode_metadata metadata) ≡ ok m)
    × IsIntentOf sample_provider m payloads (42 ∷ []) signed
signed_intent_example =
    signed_intent sample_provider reads (encode_metadata metadata) payloads (42 ∷ []) signed
      payloads_run combine_run
