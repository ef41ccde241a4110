-- ===== src/Services/Converters.antt =====
-- server/services/converters.go
use rosetta_images.Base.{
  ℕ, suc, ◌-◌, ◌*◌, ◌%◌, ◌^◌, Option, none, some, [], ◌∷◌, Bytes, ltb, ◌==◌, nat_eq, if◌then◌else◌,
  length, Result, ok, err, ℤ, pos, negsuc, nat_abs,
}
use rosetta_images.Text.Decimal.{parse_ℤ, format}
use rosetta_images.Text.Hex.{hex_encode, hex_decode}
use rosetta_images.Text.BigEndian.{set_bytes, to_bytes}
use rosetta_images.Failure.{Failure, bad_hex}
use rosetta_images.Api.{Block}
use rosetta_images.Rosetta.{
  AccountIdentifier, TransactionIdentifier, OperationIdentifier, BlockIdentifier,
}
use rosetta_images.Resources.{
  BlockSummary, BlockCoordinates, AccountQueryOptions, new_account_query_options_on_final_block,
  new_account_query_options_with_block_nonce, new_account_query_options_with_block_hash,
}

-- `int64(n)` of a uint64: the two's complement value.
unfoldable pub int64 : ℕ → ℤ
int64 n = if ltb n (2 ^ 63) then pos n else negsuc (2 ^ 64 - n - 1)

-- `uint64(z)` of an int64.
unfoldable pub uint64 : ℤ → ℕ
uint64 (pos n) = n
uint64 (negsuc n) = 2 ^ 64 - suc n

unfoldable pub block_to_identifier : Block → BlockIdentifier
block_to_identifier block = record { index = int64 block.nonce; hash = block.hash }

unfoldable pub account_block_coordinates_to_identifier : BlockCoordinates → BlockIdentifier
account_block_coordinates_to_identifier block = record {
  index = int64 block.nonce;
  hash = block.hash;
}

unfoldable pub block_summary_to_identifier : BlockSummary → BlockIdentifier
block_summary_to_identifier summary = record { index = int64 summary.nonce; hash = summary.hash }

-- types.PartialBlockIdentifier
pub record PartialBlockIdentifier : Type 0 where
  pub index : Option ℤ
  pub hash : Option Bytes

abbrev options_of_hash : Bytes → Option Bytes → Result Failure AccountQueryOptions
options_of_hash hash none = err (bad_hex hash)
options_of_hash hash (some decoded) = ok (new_account_query_options_with_block_hash decoded)

abbrev by_hash : Option Bytes → Result Failure AccountQueryOptions
by_hash none = ok new_account_query_options_on_final_block
by_hash (some hash) = options_of_hash hash (hex_decode hash)

abbrev by_index : Option ℤ → Option Bytes → Result Failure AccountQueryOptions
by_index (some index) _ = ok (new_account_query_options_with_block_nonce (uint64 index))
by_index none hash = by_hash hash

unfoldable pub block_identifier_to_account_query_options :
    Option PartialBlockIdentifier → Result Failure AccountQueryOptions
block_identifier_to_account_query_options none = ok new_account_query_options_on_final_block
block_identifier_to_account_query_options (some identifier) =
    by_index identifier.index identifier.hash

abbrev pub address_to_account_identifier : Bytes → AccountIdentifier
address_to_account_identifier address = record { address = address }

abbrev pub hash_to_transaction_identifier : Bytes → TransactionIdentifier
hash_to_transaction_identifier hash = record { hash = hash }

abbrev pub index_to_operation_identifier : ℕ → OperationIdentifier
index_to_operation_identifier index = record { index = index }

unfoldable pub timestamp_in_milliseconds : ℕ → ℕ
timestamp_in_milliseconds timestamp = timestamp * 1000

unfoldable pub ensure_even_length_of_hex_string : Bytes → Bytes
ensure_even_length_of_hex_string s = if length s % 2 == 1 then b'0' ∷ s else s

unfoldable pub string_to_hex : Bytes → Bytes
string_to_hex value = ensure_even_length_of_hex_string (hex_encode value)

abbrev hex_of_parsed : Option ℤ → Bytes
hex_of_parsed none = []
hex_of_parsed (some z) = ensure_even_length_of_hex_string (hex_encode (to_bytes (nat_abs z)))

unfoldable pub amount_to_hex : Bytes → Bytes
amount_to_hex value = hex_of_parsed (parse_ℤ value)

abbrev amount_of_bytes : Bytes → Option Bytes → Result Failure Bytes
amount_of_bytes s none = err (bad_hex s)
amount_of_bytes s (some b) = ok (format (set_bytes b))

unfoldable pub hex_to_amount : Bytes → Result Failure Bytes
hex_to_amount s = amount_of_bytes s (hex_decode s)
