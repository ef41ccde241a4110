-- ===== src/Provider/Token/RoundTrip.antt =====
-- server/provider/tokenIdentifierParts.go: the identifiers that the events give are parsed back.
use rosetta_images.Base.{
  ℕ, ◌+◌, ◌*◌, ◌/◌, ◌%◌, ◌^◌, ◌<◌, ◌≡◌, refl, ap, ◌∙◌, inl, some, [], ◌∷◌, ◌++◌, append_assoc,
  arith, Bytes, ok,
}
use rosetta_images.Text.Hex.{AllBytes, hex_encode, from_hex-hex_digit, hex_encode-Lacks}
use rosetta_images.Text.BigEndian.{set_bytes, set_from}
use rosetta_images.Text.Split.{Lacks, split_three}
use rosetta_images.Services.Events.{EventEsdt, get_extended_identifier}
use rosetta_images.Provider.Token.{scan_hex, parse_uint_hex, parse_token_identifier_into_parts}

scan_hex-hex_encode :
    (n : ℕ) (s : Bytes) → AllBytes s → scan_hex n (hex_encode s) ≡ some (set_from n s)
unfolding scan_hex hex_encode set_from
scan_hex-hex_encode n [] h = refl
scan_hex-hex_encode n (b ∷ s) (hb, h) =
    rw (from_hex-hex_digit (b / 16) (omega arith), from_hex-hex_digit (b % 16) (omega arith))
      (ap (λ m. scan_hex m (hex_encode s)) (sum n b) ∙ scan_hex-hex_encode (n * 256 + b) s h)
  where
    sum : (n b : ℕ) → (n * 16 + b / 16) * 16 + b % 16 ≡ n * 256 + b
    sum n b = omega arith

parse_uint_hex-hex_encode :
    (b : ℕ) (s : Bytes)
    → AllBytes (b ∷ s)
    → set_bytes (b ∷ s) < 2 ^ 64
    → parse_uint_hex (hex_encode (b ∷ s)) ≡ some (set_bytes (b ∷ s))
unfolding parse_uint_hex set_bytes hex_encode
parse_uint_hex-hex_encode b s h fits = rw (scan_hex-hex_encode 0 (b ∷ s) h) (ground (arith, fits))

-- The extended identifier of an event with a nonce is parsed as the ticker and the random sequence
-- of its token, with the nonce that the bytes of the event stand for, if the nonce fits 64 bits.
pub parse_token_identifier_into_parts-get_extended_identifier :
    (ticker random : Bytes) (b : ℕ) (s : Bytes) (event : EventEsdt)
    → Lacks b'-' ticker
    → Lacks b'-' random
    → AllBytes (b ∷ s)
    → set_bytes (b ∷ s) < 2 ^ 64
    → event.identifier ≡ ticker ++ b'-' ∷ random
    → event.nonce_as_bytes ≡ b ∷ s
    → parse_token_identifier_into_parts (get_extended_identifier event)
      ≡ ok (record {
        ticker = ticker;
        random_sequence = random;
        ticker_with_random_sequence = event.identifier;
        nonce = set_bytes (b ∷ s);
      })
unfolding parse_token_identifier_into_parts get_extended_identifier
parse_token_identifier_into_parts-get_extended_identifier ticker random b s event ht hr hb fits i
      n =
    rw
      (
        i,
        n,
        append_assoc ticker (b'-' ∷ random) (b'-' ∷ hex_encode (b ∷ s)),
        split_three ticker random (hex_encode (b ∷ s)) b'-' ht hr
            (hex_encode-Lacks (b ∷ s) b'-' hb (inl (omega arith))),
        parse_uint_hex-hex_encode b s hb fits,
      )
      refl
