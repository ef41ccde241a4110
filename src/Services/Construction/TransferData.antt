-- ===== src/Services/Construction/TransferData.antt =====
-- server/services/constructionService.go: the data of a custom currency transfer is parsed back.

use rosetta_images.Base.{◌+◌, ◌≡◌, refl, inr, [], ◌∷◌, arith, Bytes, ok, length, nat_eq}
use rosetta_images.Text.Decimal.{IsDecimal, value, format, parse_ℤ-value}
use rosetta_images.Text.Hex.{AllBytes, hex_encode, hex_decode-hex_encode, hex_encode-Lacks}
use rosetta_images.Text.BigEndian.{to_bytes, set_bytes-to_bytes, to_bytes-AllBytes}
use rosetta_images.Text.Split.{Lacks, split_three}
use rosetta_images.Api.{Libraries}
use rosetta_images.Services.Converters.{
  string_to_hex, amount_to_hex, hex_to_amount, ensure_even_length_of_hex_string,
}
use rosetta_images.Services.Construction.{
  compute_data_for_custom_currency_transfer, parse_custom_currency_transfer,
}

length-hex_encode : (s : Bytes) → length (hex_encode s) ≡ length s + length s
unfolding hex_encode
length-hex_encode [] = refl
length-hex_encode (b ∷ s) = omega (arith, length-hex_encode s)

-- Hexadecimal text has an even length already.
pub ensure_even_length_of_hex_string-hex_encode :
    (s : Bytes) → ensure_even_length_of_hex_string (hex_encode s) ≡ hex_encode s
unfolding ensure_even_length_of_hex_string
ensure_even_length_of_hex_string-hex_encode s = ground (arith, length-hex_encode s)

string_to_hex_lem : (s : Bytes) → string_to_hex s ≡ hex_encode s
unfolding string_to_hex
string_to_hex_lem = ensure_even_length_of_hex_string-hex_encode

amount_to_hex_lem :
    (amount : Bytes)
    → IsDecimal amount
    → amount_to_hex amount ≡ hex_encode (to_bytes (value 0 amount))
unfolding amount_to_hex
amount_to_hex_lem amount h =
    rw (parse_ℤ-value amount h)
      (ensure_even_length_of_hex_string-hex_encode (to_bytes (value 0 amount)))

-- The hexadecimal form of a decimal amount is read back as the same number.
pub hex_to_amount-amount_to_hex :
    (amount : Bytes)
    → IsDecimal amount
    → hex_to_amount (amount_to_hex amount) ≡ ok (format (value 0 amount))
unfolding hex_to_amount
hex_to_amount-amount_to_hex amount h = rw (amount_to_hex_lem amount h) (
    rw (hex_decode-hex_encode (to_bytes (value 0 amount)) (to_bytes-AllBytes (value 0 amount)))
      (rw (set_bytes-to_bytes (value 0 amount)) refl))

-- The data that the service computes for a transfer of a decimal amount of a token is parsed as
-- this token and this number, if the name of the built-in function has no separator.
pub parse_custom_currency_transfer-compute_data_for_custom_currency_transfer :
    ⦃lib : Libraries⦄ (token amount : Bytes)
    → Lacks b'@' lib.builtin_esdt_transfer
    → AllBytes token
    → IsDecimal amount
    → parse_custom_currency_transfer (compute_data_for_custom_currency_transfer token amount)
      ≡ ok (token, format (value 0 amount))
unfolding parse_custom_currency_transfer hex_to_amount compute_data_for_custom_currency_transfer
parse_custom_currency_transfer-compute_data_for_custom_currency_transfer ⦃lib⦄ token amount hl ht
      ha =
    let n = value 0 amount in
    rw
      (
        string_to_hex_lem token,
        amount_to_hex_lem amount ha,
        split_three lib.builtin_esdt_transfer (hex_encode token) (hex_encode (to_bytes n)) b'@' hl
            (hex_encode-Lacks token b'@' ht (inr (omega arith)))
            (hex_encode-Lacks (to_bytes n) b'@' (to_bytes-AllBytes n) (inr (omega arith))),
        hex_decode-hex_encode token ht,
      )
      (rw (hex_decode-hex_encode (to_bytes n) (to_bytes-AllBytes n))
        (rw (set_bytes-to_bytes n) refl))
