-- ===== src/Api.antt =====
-- The node's API types (`transaction` and `api` of mx-chain-core-go), with the fields that the
-- source reads, and what else the source takes from libraries outside the repository.
use rosetta_images.Base.{ℕ, Bool, Option, List, Bytes, ℤ, Result}
use rosetta_images.Failure.{Failure}

-- transaction.Events
pub record Event : Type 0 where
  pub address : Bytes
  pub identifier : Bytes
  pub topics : List Bytes
  pub event_data : Bytes

-- transaction.ApiTransactionResult; `logs` is `none` for a nil pointer
pub record ApiTransaction : Type 0 where
  pub tx_type : Bytes
  pub processing_type_on_source : Bytes
  pub processing_type_on_destination : Bytes
  pub hash : Bytes
  pub nonce : ℕ
  pub epoch : ℕ
  pub value : Bytes
  pub receiver : Bytes
  pub sender : Bytes
  pub sender_username : Bytes
  pub receiver_username : Bytes
  pub gas_price : ℕ
  pub gas_limit : ℕ
  pub tx_data : Bytes
  pub signature : Bytes
  pub source_shard : ℕ
  pub destination_shard : ℕ
  pub block_nonce : ℕ
  pub mini_block_type : Bytes
  pub mini_block_hash : Bytes
  pub timestamp : ℕ
  pub logs : Option (List Event)
  pub initially_paid_fee : Bytes
  pub is_refund : Bool
  pub original_transaction_hash : Bytes
  pub previous_transaction_hash : Bytes
  pub original_sender : Bytes
  pub operation : Bytes
  pub guardian_addr : Bytes
  pub relayer_address : Bytes
  pub relayer_signature : Bytes

-- transaction.ApiReceipt
pub record ApiReceipt : Type 0 where
  pub receipt_value : ℤ
  pub snd_addr : Bytes
  pub receipt_data : Bytes
  pub tx_hash : Bytes

-- api.MiniBlock
pub record MiniBlock : Type 0 where
  pub block_type : Bytes
  pub processing_type : Bytes
  pub transactions : List ApiTransaction
  pub receipts : List ApiReceipt

-- api.Block
pub record Block : Type 0 where
  pub nonce : ℕ
  pub round : ℕ
  pub epoch : ℕ
  pub shard : ℕ
  pub hash : Bytes
  pub prev_block_hash : Bytes
  pub status : Bytes
  pub timestamp : ℕ
  pub mini_blocks : List MiniBlock

-- data.Transaction of mx-chain-proxy-go, with the fields that the construction service fills
pub record PreparedTx : Type 0 where
  pub sender : Bytes
  pub receiver : Bytes
  pub nonce : ℕ
  pub value : Bytes
  pub gas_limit : ℕ
  pub gas_price : ℕ
  pub tx_data : Bytes
  pub signature : Bytes
  pub chain_id : Bytes
  pub version : ℕ

-- innerTransactionOfRelayedV1 (server/services/relayedTransactions.go)
pub record InnerTransaction : Type 0 where
  pub inner_value : ℤ
  pub receiver_pub_key : Bytes
  pub sender_pub_key : Bytes

-- Constants and functions of mx-chain-core-go, and the decoding of an inner transaction by
-- `json.Unmarshal`.
pub record Libraries : Type 0 where
  pub tx_type_normal : Bytes
  pub tx_type_reward : Bytes
  pub tx_type_unsigned : Bytes
  pub tx_type_invalid : Bytes
  pub signal_error_operation : Bytes
  pub sc_deploy_identifier : Bytes
  pub builtin_claim_developer_rewards : Bytes
  pub builtin_esdt_transfer : Bytes
  pub builtin_esdt_local_burn : Bytes
  pub builtin_esdt_local_mint : Bytes
  pub builtin_esdt_wipe : Bytes
  pub processing_type_scheduled : Bytes
  pub is_smart_contract_address : Bytes → Bool
  pub unmarshal_inner_transaction : Bytes → Result Failure InnerTransaction
