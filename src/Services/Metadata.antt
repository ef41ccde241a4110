-- ===== src/Services/Metadata.antt =====
-- server/services/transactionMetadata.go
use rosetta_images.Base.{◌++◌, [], ◌∷◌, Bytes, codes, is_empty, ltb, if◌then◌else◌}
use rosetta_images.Api.{ApiTransaction}
use rosetta_images.Rosetta.{ObjectsMap, Value, text, number, raw}

-- An entry that is added only if the text is not empty.
abbrev when_present : Bytes → Value → Bytes → ObjectsMap
when_present key v s = if is_empty s then [] else (key, v) ∷ []

-- The keys are all different, so that the order of entries does not matter.
unfoldable pub extract_transaction_metadata : ApiTransaction → ObjectsMap
extract_transaction_metadata tx =
    ((codes "timestamp", number tx.timestamp)
      ∷ (codes "value", text tx.value)
      ∷ (codes "nonce", number tx.nonce)
      ∷ (codes "typeOnSource", text tx.processing_type_on_source)
      ∷ (codes "typeOnDestination", text tx.processing_type_on_destination)
      ∷ (codes "epoch", number tx.epoch)
      ∷ (codes "sender", text tx.sender)
      ∷ (codes "receiver", text tx.receiver)
      ∷ (codes "sourceShard", number tx.source_shard)
      ∷ (codes "destinationShard", number tx.destination_shard)
      ∷ (codes "miniblock", text tx.mini_block_hash)
      ∷ (codes "miniblockType", text tx.mini_block_type)
      ∷ [])
    ++ (when_present (codes "relayer") (text tx.relayer_address) tx.relayer_address
        ++ (when_present (codes "originalSender") (text tx.original_sender) tx.original_sender
            ++ (when_present (codes "senderUsername") (text tx.sender_username) tx.sender_username
                ++ (when_present (codes "receiverUsername") (text tx.receiver_username)
                      tx.receiver_username
                    ++ (when_present (codes "originalTransaction")
                          (text tx.original_transaction_hash) tx.original_transaction_hash
                        ++ (when_present (codes "previousTransaction")
                              (text tx.previous_transaction_hash) tx.previous_transaction_hash
                            ++ (when_present (codes "data") (raw tx.tx_data) tx.tx_data
                                ++ ((if ltb 0 tx.gas_price
                                      then (codes "gasPrice", number tx.gas_price) ∷ []
                                      else [])
                                    ++ (if ltb 0 tx.gas_limit
                                        then (codes "gasLimit", number tx.gas_limit) ∷ []
                                        else [])))))))))
