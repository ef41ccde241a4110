-- ===== src/Rosetta.antt =====
-- The types of rosetta-sdk-go that the services fill, with the fields that they use.
use rosetta_images.Failure.{Failure}
use rosetta_images.Base.{ℕ, Bool, Option, List, Bytes, Dict, ℤ}

pub record Currency : Type 0 where
  pub symbol : Bytes
  pub decimals : ℕ

pub record Amount : Type 0 where
  pub value : Bytes
  pub currency : Currency

pub record AccountIdentifier : Type 0 where
  pub address : Bytes

pub record TransactionIdentifier : Type 0 where
  pub hash : Bytes

pub record OperationIdentifier : Type 0 where
  pub index : ℕ

pub record BlockIdentifier : Type 0 where
  pub index : ℤ
  pub hash : Bytes

-- A value of a JSON object.
pub data Value : Type 0 where
  text : Bytes → Value
  number : ℕ → Value
  raw : Bytes → Value

-- objectsMap (server/services/common.go)
abbrev pub ObjectsMap : Type 0
ObjectsMap = Dict Value

-- Pointers that the services always set are plain values; the others are options.
pub record Operation : Type 0 where
  pub operation_identifier : Option OperationIdentifier
  pub op_type : Bytes
  pub status : Option Bytes
  pub account : AccountIdentifier
  pub amount : Amount

pub record Transaction : Type 0 where
  pub transaction_identifier : TransactionIdentifier
  pub operations : List Operation
  pub metadata : ObjectsMap

-- types.Error; `details` holds the original error, if there is one.
pub record ApiError : Type 0 where
  pub code : ℕ
  pub message : Bytes
  pub retriable : Bool
  pub details : Option Failure

-- types.Block, as /block answers it
pub record RosettaBlock : Type 0 where
  pub block_identifier : BlockIdentifier
  pub parent_block_identifier : BlockIdentifier
  pub timestamp : ℕ
  pub transactions : List Transaction
  pub metadata : ObjectsMap

pub record AccountBalanceResponse : Type 0 where
  pub block_identifier : BlockIdentifier
  pub balances : List Amount
  pub metadata : ObjectsMap

pub record NetworkIdentifier : Type 0 where
  pub blockchain : Bytes
  pub network : Bytes

-- `connections` is kept apart from the text of the peer's metadata, the version.
pub record Peer : Type 0 where
  pub peer_id : Bytes
  pub version : Bytes
  pub connections : Dict ℤ

pub record NetworkStatusResponse : Type 0 where
  pub current_block_identifier : BlockIdentifier
  pub current_block_timestamp : ℕ
  pub genesis_block_identifier : BlockIdentifier
  pub oldest_block_identifier : BlockIdentifier
  pub synced : Bool
  pub peers : List Peer

pub record Version : Type 0 where
  pub rosetta_version : Bytes
  pub middleware_version : Bytes
  pub node_version : Bytes

pub record OperationStatus : Type 0 where
  pub status : Bytes
  pub successful : Bool

pub record Allow : Type 0 where
  pub operation_statuses : List OperationStatus
  pub operation_types : List Bytes
  pub errors : List ApiError
  pub historical_balance_lookup : Bool

pub record NetworkOptionsResponse : Type 0 where
  pub version : Version
  pub allow : Allow
