-- ===== src/Provider/Token.antt =====
-- server/provider/tokenIdentifierParts.go
pub mod RoundTrip
use rosetta_images.Base.{
  ℕ, ◌+◌, ◌*◌, ◌/◌, ◌%◌, ◌^◌, ◌<◌, ◌≡◌, ◌≢◌, refl, sym, inl, inr, true, Option, none, some, List,
  [], ◌∷◌, ◌++◌, append_assoc, arith, Bytes, Result, ok, err, ltb, if◌then◌else◌, is_empty,
}
use rosetta_images.Text.Hex.{
  from_hex, hex_encode, hex_digit, AllBytes, from_hex-hex_digit, hex_encode-Lacks,
}
use rosetta_images.Text.BigEndian.{set_bytes}
use rosetta_images.Text.Split.{Lacks, split, split_three, split_two}
use rosetta_images.Failure.{Failure, cannot_parse_token_identifier}
use rosetta_images.Services.Events.{EventEsdt, get_extended_identifier}

pub record TokenIdentifierParts : Type 0 where
  pub ticker : Bytes
  pub random_sequence : Bytes
  pub ticker_with_random_sequence : Bytes
  pub nonce : ℕ

abbrev then_scan : Option ℕ → (ℕ → Option ℕ) → Option ℕ
then_scan none k = none
then_scan (some d) k = k d

unfoldable pub scan_hex : ℕ → Bytes → Option ℕ
scan_hex n [] = some n
scan_hex n (c ∷ s) = then_scan (from_hex c) (λ d. scan_hex (n * 16 + d) s)

abbrev in_range : Option ℕ → Option ℕ
in_range none = none
in_range (some n) = if ltb n (2 ^ 64) then some n else none

-- `strconv.ParseUint(s, 16, 64)`
unfoldable pub parse_uint_hex : Bytes → Option ℕ
unfolding scan_hex
parse_uint_hex [] = none
parse_uint_hex (c ∷ s) = in_range (scan_hex 0 (c ∷ s))

abbrev of_nonce : Bytes → Bytes → Bytes → Option ℕ → Result Failure TokenIdentifierParts
of_nonce token_identifier ticker random none = err (cannot_parse_token_identifier token_identifier)
of_nonce token_identifier ticker random (some nonce) = ok (record {
  ticker = ticker;
  random_sequence = random;
  ticker_with_random_sequence = ticker ++ b'-' ∷ random;
  nonce = nonce;
})

abbrev of_parts : Bytes → List Bytes → Result Failure TokenIdentifierParts
of_parts token_identifier (ticker ∷ random ∷ []) = ok (record {
  ticker = ticker;
  random_sequence = random;
  ticker_with_random_sequence = token_identifier;
  nonce = 0;
})
of_parts token_identifier (ticker ∷ random ∷ nonce ∷ []) =
    of_nonce token_identifier ticker random (parse_uint_hex nonce)
of_parts token_identifier _ = err (cannot_parse_token_identifier token_identifier)

unfoldable pub parse_token_identifier_into_parts : Bytes → Result Failure TokenIdentifierParts
parse_token_identifier_into_parts token_identifier =
    of_parts token_identifier (split token_identifier b'-')
