-- ===== src/Failure.antt =====
-- Go's `error` values, by where they come from; the words of a message are not modelled.
use rosetta_images.Base.{ℕ, Bytes}

pub data Failure : Type 0 where
  -- server/services: `errCannotRecognizeEvent` with the number of topics
  cannot_recognize_event : ℕ → Failure
  bad_number_of_topics : ℕ → Failure
  cannot_parse_relayed_v1 : Failure
  unknown_transaction_type : Bytes → Failure
  -- `encoding/hex` and `encoding/json`
  bad_hex : Bytes → Failure
  bad_json : Failure
  -- server/services: a text of `errors.New`
  message : Bytes → Failure
  -- server/provider
  is_offline : Failure
  cannot_get_block : Failure
  cannot_get_block_by_nonce : ℕ → Failure → Failure
  cannot_get_block_by_hash : Bytes → Failure → Failure
  cannot_get_account : Bytes → Failure → Failure
  cannot_get_transaction : Bytes → Failure → Failure
  cannot_get_latest_block_nonce : Failure
  invalid_custom_currency_symbol : ℕ → Failure
  cannot_parse_token_identifier : Bytes → Failure
  -- an error of the observer or of a library, with its message
  external : Bytes → Failure
  -- no error of the code: a run that the fuel of the model does not cover
  out_of_fuel : Failure
  -- no error of the code: it panics, at an index of an empty slice
  index_out_of_range : Failure
