-- ===== src/Services/Relayed.antt =====
-- server/services/relayedTransactions.go
use rosetta_images.Base.{
  Bool, Option, none, some, List, [], ◌∷◌, Bytes, Result, err, ◌==◌, bytes_eq, ◌&&◌,
}
use rosetta_images.Failure.{Failure, cannot_parse_relayed_v1, bad_hex}
use rosetta_images.Text.Split.{split}
use rosetta_images.Text.Hex.{hex_decode}
use rosetta_images.Api.{ApiTransaction, InnerTransaction, Libraries}
use rosetta_images.Services.Constants.{processing_type_relayed_v1, arguments_separator}

module _ ⦃lib : Libraries⦄ where
  unfoldable pub is_relayed_v1_transaction : ApiTransaction → Bool
  is_relayed_v1_transaction tx =
      tx.tx_type == lib.tx_type_normal
      && (tx.processing_type_on_source == processing_type_relayed_v1
          && tx.processing_type_on_destination == processing_type_relayed_v1)

  abbrev pub unmarshal_decoded : Bytes → Option Bytes → Result Failure InnerTransaction
  unmarshal_decoded part none = err (bad_hex part)
  unmarshal_decoded part (some payload) = lib.unmarshal_inner_transaction payload

  abbrev pub parse_subparts : List Bytes → Result Failure InnerTransaction
  parse_subparts (_ ∷ part ∷ []) = unmarshal_decoded part (hex_decode part)
  parse_subparts _ = err cannot_parse_relayed_v1

  unfoldable pub parse_inner_tx_of_relayed_v1 : ApiTransaction → Result Failure InnerTransaction
  parse_inner_tx_of_relayed_v1 tx = parse_subparts (split tx.tx_data arguments_separator)
