-- ===== src/Tests/Tokens.antt =====
-- Identifiers of tokens and the currencies of a provider.
use rosetta_images.Base.{
  ◌≡◌, refl, true, some, List, [], ◌∷◌, arith, Bytes, codes, ok, err, bytes_beq, insert, Memᴰ,
  ok_or,
}
use rosetta_images.Text.Hex.{from_hex}
use rosetta_images.Text.BigEndian.{set_bytes}
use rosetta_images.Text.Split.{split}
use rosetta_images.Failure.{cannot_parse_token_identifier}
use rosetta_images.Rosetta.{Currency}
use rosetta_images.Services.Events.{EventEsdt, get_extended_identifier}
use rosetta_images.Provider.Token.{parse_token_identifier_into_parts, parse_uint_hex}
use rosetta_images.Provider.Token.RoundTrip.{
  parse_token_identifier_into_parts-get_extended_identifier,
}
use rosetta_images.Provider.Currencies.{
  CurrenciesProvider, index_by_symbol, new_currencies_provider, get_custom_currency_by_symbol,
  has_custom_currency, new_currencies_provider_lem,
}

abbrev event : EventEsdt
event = record {
  sender_address = [];
  receiver_address = [];
  other_address = [];
  identifier = codes "NFT-ab12cd";
  nonce_as_bytes = 1 ∷ 10 ∷ [];
  value = codes "1";
}

parse_token_identifier_into_parts-get_extended_identifier_example :
    parse_token_identifier_into_parts (get_extended_identifier event)
    ≡ ok (record {
      ticker = codes "NFT";
      random_sequence = codes "ab12cd";
      ticker_with_random_sequence = codes "NFT-ab12cd";
      nonce = set_bytes (1 ∷ 10 ∷ []);
    })
unfolding set_bytes
parse_token_identifier_into_parts-get_extended_identifier_example =
    parse_token_identifier_into_parts-get_extended_identifier (codes "NFT") (codes "ab12cd") 1
      (10 ∷ []) event (ground arith) (ground arith) (ground arith) (ground arith) refl refl

parse_fails :
    (parse_token_identifier_into_parts (codes "X-a-zz")
      ≡ err (cannot_parse_token_identifier (codes "X-a-zz")))
    × (parse_token_identifier_into_parts (codes "X")
        ≡ err (cannot_parse_token_identifier (codes "X")))
unfolding parse_token_identifier_into_parts parse_uint_hex from_hex split
parse_fails = (refl, refl)

abbrev currencies : List Currency
currencies =
    record { symbol = codes "A-1"; decimals = 2 }
    ∷ record { symbol = codes "B-2"; decimals = 3 }
    ∷ []

abbrev made : CurrenciesProvider
made =
    ok_or
      (record {
        native_currency = record { symbol = []; decimals = 0 };
        custom_currencies_symbols = [];
        custom_currencies = [];
        custom_currencies_by_symbol = [];
      })
      (new_currencies_provider 18 (codes "EGLD") currencies)

new_currencies_provider_lem_example :
    ((symbol : Bytes) (currency : Currency)
      → get_custom_currency_by_symbol made symbol ≡ some currency
      → Memᴰ currency currencies × (currency.symbol ≡ symbol))
    × ((currency : Currency)
        → Memᴰ currency currencies
        → has_custom_currency made currency.symbol ≡ true)
unfolding new_currencies_provider index_by_symbol insert bytes_beq
new_currencies_provider_lem_example =
    new_currencies_provider_lem 18 (codes "EGLD") currencies made refl
