-- ===== src/Provider/RelayedV3.antt =====
-- server/provider/transactions.go
use rosetta_images.Base.{
  Bool, true, false, not, ◌==◌, nat_eq, ◌&&◌, is_empty, length, if◌then◌else◌,
}
use rosetta_images.Api.{ApiTransaction}

unfoldable pub is_relayed_tx_v3 : ApiTransaction → Bool
is_relayed_tx_v3 tx =
    let has_relayer =
      not (is_empty tx.relayer_address) && length tx.relayer_address == length tx.sender in
    let has_relayer_signature =
      not (is_empty tx.relayer_signature) && length tx.relayer_signature == length tx.signature in
    if not has_relayer then false else if not has_relayer_signature then false else true
