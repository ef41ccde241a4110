-- ===== src/Services/Blocks.antt =====
-- server/services/blockService.go: the endpoint /block, with the genesis block that it keeps.
pub mod Locking
pub mod SingleGenesis
pub mod OneRequest
pub mod Chain
pub mod Errors
use rosetta_images.Base.{
  ℕ, ◌+◌, ◌-◌, ◌%◌, ◌^◌, Bool, true, false, Option, none, some, List, [], ◌∷◌, map, Bytes, Result,
  ok, err, ℤ, pos, negsuc, map_err, codes, ◌>>=◌, ◌==◌, ◌||◌, nat_eq, bytes_eq, if◌then◌else◌,
}
use rosetta_images.Failure.{Failure}
use rosetta_images.Api.{Block, Libraries}
use rosetta_images.Resources.{GenesisBalance}
use rosetta_images.Rosetta.{
  ApiError, BlockIdentifier, Operation, RosettaBlock, Transaction, number, text,
}
use rosetta_images.Services.Interface.{NetworkProvider}
use rosetta_images.Services.Constants.{empty_hash}
use rosetta_images.Services.OpTypes.{genesis_balance_movement}
use rosetta_images.Services.Errors.{
  err_must_query_by_index_or_by_hash, err_not_implemented, err_unable_to_get_block,
  err_unable_to_get_genesis_block, new_err, new_err_factory, new_err_with_original,
}
use rosetta_images.Services.Converters.{
  PartialBlockIdentifier, block_to_identifier, hash_to_transaction_identifier, int64,
  timestamp_in_milliseconds, uint64,
}
use rosetta_images.Services.Extension.{get_genesis_block_identifier, value_to_native_amount}
use rosetta_images.Services.Operations.{
  apply_default_status_on_operations, filter_operations_by_address, new_operation,
}
use rosetta_images.Services.Transformer.{transform_block_txs}

module _ (provider : NetworkProvider) where
  abbrev pub genesis_operation : GenesisBalance → Operation
  genesis_operation balance =
      new_operation genesis_balance_movement balance.address
        (value_to_native_amount provider balance.balance)

  -- Unlike the operations of a transaction, those of zero amount stay.
  unfoldable pub create_genesis_operations : List GenesisBalance → Result Failure (List Operation)
  create_genesis_operations balances = do
    operations ←
        filter_operations_by_address provider.is_address_observed (map genesis_operation balances)
    ok (apply_default_status_on_operations operations)

  abbrev genesis_transaction : List Operation → Transaction
  genesis_transaction operations = record {
    transaction_identifier = hash_to_transaction_identifier empty_hash;
    operations = operations;
    metadata = [];
  }

  unfoldable pub do_get_genesis_block : Result ApiError RosettaBlock
  do_get_genesis_block = do
    genesis_balances ←
        map_err (new_err_with_original new_err_factory err_unable_to_get_genesis_block)
          provider.get_genesis_balances
    operations ←
        map_err (new_err_with_original new_err_factory err_unable_to_get_genesis_block)
          (create_genesis_operations genesis_balances)
    ok (record {
      block_identifier = get_genesis_block_identifier provider;
      parent_block_identifier = get_genesis_block_identifier provider;
      timestamp = timestamp_in_milliseconds provider.get_genesis_timestamp;
      transactions = genesis_transaction operations ∷ [];
      metadata = [];
    })

  -- `block.Nonce - 1` is a uint64; the block after genesis is linked to genesis.
  unfoldable pub parent_block_identifier : Block → BlockIdentifier
  parent_block_identifier block =
      if block.nonce == 1 then get_genesis_block_identifier provider else record {
        index = int64 ((block.nonce + 2 ^ 64 - 1) % 2 ^ 64);
        hash = block.prev_block_hash;
      }

-- The genesis block that the service keeps, if it was fetched.
abbrev pub GenesisBlock : Type 0
GenesisBlock = Option RosettaBlock

abbrev pub store_if_ok : Result ApiError RosettaBlock → Result ApiError RosettaBlock × GenesisBlock
store_if_ok (ok fetched_block) = (ok fetched_block, some fetched_block)
store_if_ok (err e) = (err e, none)

-- The mutex is left out here: one call after the other.
unfoldable pub get_genesis_block :
    NetworkProvider → GenesisBlock → Result ApiError RosettaBlock × GenesisBlock
get_genesis_block provider (some block) = (ok block, some block)
get_genesis_block provider none = store_if_ok (do_get_genesis_block provider)

module _ ⦃lib : Libraries⦄ (provider : NetworkProvider) where
  unfoldable pub convert_to_rosetta_block : Block → Result Failure RosettaBlock
  convert_to_rosetta_block block = do
    transactions ← transform_block_txs provider block
    ok (record {
      block_identifier = block_to_identifier block;
      parent_block_identifier = parent_block_identifier provider block;
      timestamp = timestamp_in_milliseconds block.timestamp;
      transactions = transactions;
      metadata =
          (codes "shard", number block.shard)
          ∷ (codes "epoch", number block.epoch)
          ∷ (codes "round", number block.round)
          ∷ (codes "status", text block.status)
          ∷ [];
    })

  unfoldable pub get_block_by_nonce : ℤ → Result ApiError RosettaBlock
  get_block_by_nonce nonce =
      map_err (new_err_with_original new_err_factory err_unable_to_get_block)
        (provider.get_block_by_nonce (uint64 nonce) >>= convert_to_rosetta_block)

  unfoldable pub get_block_by_hash : Bytes → Result ApiError RosettaBlock
  get_block_by_hash hash =
      map_err (new_err_with_original new_err_factory err_unable_to_get_block)
        (provider.get_block_by_hash hash >>= convert_to_rosetta_block)

  abbrev int_eq : ℤ → ℤ → Bool
  int_eq (pos n) (pos m) = n == m
  int_eq (negsuc n) (negsuc m) = n == m
  int_eq _ _ = false

  abbrev pub has_genesis_index : Option ℤ → Bool
  has_genesis_index none = false
  has_genesis_index (some index) = int_eq index (get_genesis_block_identifier provider).index

  abbrev pub has_genesis_hash : Option Bytes → Bool
  has_genesis_hash none = false
  has_genesis_hash (some hash) = hash == (get_genesis_block_identifier provider).hash

  -- The index decides, where both are given.
  abbrev pub by_index_or_hash : Option ℤ → Option Bytes → Result ApiError RosettaBlock
  by_index_or_hash (some index) _ = get_block_by_nonce index
  by_index_or_hash none (some hash) = get_block_by_hash hash
  by_index_or_hash none none = err (new_err new_err_factory err_must_query_by_index_or_by_hash)

  unfoldable pub do_get_block :
      PartialBlockIdentifier → GenesisBlock → Result ApiError RosettaBlock × GenesisBlock
  do_get_block request genesis_block =
      if has_genesis_index request.index || has_genesis_hash request.hash
      then get_genesis_block provider genesis_block
      else (by_index_or_hash request.index request.hash, genesis_block)

unfoldable pub block_transaction : ApiError
block_transaction = new_err new_err_factory err_not_implemented
