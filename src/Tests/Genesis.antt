-- ===== src/Tests/Genesis.antt =====
-- The genesis block asked for twice at the same time, and blocks next to one another.
use rosetta_images.Base.{
  bytes_beq, traverse, keep, flat_map, ℤ, arith, ◌≡◌, refl, ap, [], ◌∷◌, some, none, codes, ok, inl,
  pos,
}
use rosetta_images.Failure.{external}
use rosetta_images.Api.{Block}
use rosetta_images.Rosetta.{RosettaBlock, number, text}
use rosetta_images.Services.Constants.{empty_hash}
use rosetta_images.Services.Extension.{get_genesis_block_identifier, value_to_native_amount}
use rosetta_images.Services.Operations.{
  filter_operations_by_address, observed_operations, index_operations, index_from,
  apply_default_status_on_operations,
}
use rosetta_images.Services.Converters.{
  block_to_identifier, timestamp_in_milliseconds, block_summary_to_identifier, int64,
}
use rosetta_images.Services.Filters
use rosetta_images.Services.Transformer.{
  effective_txs, gather_receipts, gather_txs, transform_block_txs,
}
use rosetta_images.Services.Errors.{new_err_with_original, new_err_factory, err_unable_to_get_block}
use rosetta_images.Services.Interface.{NetworkProvider}
use rosetta_images.Services.Blocks.{
  get_block_by_nonce, parent_block_identifier, convert_to_rosetta_block, do_get_block,
  do_get_genesis_block, create_genesis_operations, get_genesis_block,
}
use rosetta_images.Services.Blocks.Locking.{
  Reach, System, fetch, fetched, here, lock, miss, new_system, next, r_lock, r_unlock, read,
  return_found, return_stored, store,
}
use rosetta_images.Services.Blocks.SingleGenesis.{IsAnswer, single_genesis}
use rosetta_images.Services.Blocks.OneRequest.{ReachAlone, HasReturned, get_genesis_block_returns}
use rosetta_images.Services.Blocks.Chain.{convert_to_rosetta_block-linked}
use rosetta_images.Services.Blocks.Errors.{IsError, do_get_block-err}
use rosetta_images.Tests.Sample.{block_of, native, sample_libraries, sample_provider}

get_genesis_block_returns_example :
    (s' : System) × ReachAlone 3 sample_provider new_system s'
    × HasReturned s' 3 (get_genesis_block sample_provider none)
get_genesis_block_returns_example =
    get_genesis_block_returns new_system 3 sample_provider refl refl refl

-- One address got a balance in the beginning.
abbrev with_balance : NetworkProvider
with_balance = record sample_provider {
  get_genesis_balances = ok (record { address = codes "alice"; balance = codes "10" } ∷ []);
}

abbrev genesis : RosettaBlock
genesis = record {
  block_identifier = record { index = pos 0; hash = codes "genesis" };
  parent_block_identifier = record { index = pos 0; hash = codes "genesis" };
  timestamp = 7000;
  transactions =
      record {
        transaction_identifier = record { hash = empty_hash };
        operations =
            record {
              operation_identifier = some (record { index = 0 });
              op_type = codes "GenesisBalanceMovement";
              status = some (codes "Success");
              account = record { address = codes "alice" };
              amount = record { value = codes "10"; currency = native };
            }
            ∷ [];
        metadata = [];
      }
      ∷ [];
  metadata = [];
}

genesis_is : do_get_genesis_block with_balance ≡ ok genesis
unfolding bytes_beq index_operations index_from do_get_genesis_block create_genesis_operations
    get_genesis_block_identifier value_to_native_amount filter_operations_by_address
    observed_operations apply_default_status_on_operations timestamp_in_milliseconds
    block_summary_to_identifier int64
genesis_is = refl

-- Both read the empty field; the first fetches the block, the second finds it behind the lock.
abbrev reached : (s : System) × Reach new_system s
reached =
    let a = next (next (next here (r_lock _ 0 refl refl)) (r_lock _ 1 refl refl)) (read _ 0 refl) in
    let b =
      next (next (next a (read _ 1 refl)) (r_unlock _ 0 none refl)) (r_unlock _ 1 none refl) in
    let c =
      next (next (next b (lock _ 0 refl refl refl)) (miss _ 0 refl refl))
        (fetch _ 0 with_balance refl) in
    let d =
      next (next c (store _ 0 genesis (ap fetched genesis_is))) (return_stored _ 0 genesis refl) in
    (_, next (next d (lock _ 1 refl refl refl)) (return_found _ 1 genesis refl refl))

single_genesis_example : (genesis ≡ genesis) × IsAnswer genesis
single_genesis_example = (single_genesis reached.1).0 0 1 genesis genesis refl refl

do_get_block-err_example :
    IsError sample_provider
      (record { index = some (pos 12); hash = none })
      (new_err_with_original new_err_factory err_unable_to_get_block (external (codes "down")))
unfolding do_get_block get_genesis_block_identifier block_summary_to_identifier int64
    get_block_by_nonce
do_get_block-err_example =
    do_get_block-err sample_provider (record { index = some (pos 12); hash = none }) none
      (new_err_with_original new_err_factory err_unable_to_get_block (external (codes "down"))) refl

abbrev parent : Block
parent = record (block_of []) { mini_blocks = [] }

abbrev child : Block
child = record parent { nonce = 13; hash = codes "b13"; prev_block_hash = codes "b12" }

abbrev answered : Block → ℤ → ℤ → RosettaBlock
answered block index parent_index = record {
  block_identifier = record { index = index; hash = block.hash };
  parent_block_identifier = record { index = parent_index; hash = block.prev_block_hash };
  timestamp = 100000;
  transactions = [];
  metadata =
      (codes "shard", number 0)
      ∷ (codes "epoch", number 4)
      ∷ (codes "round", number 13)
      ∷ (codes "status", text [])
      ∷ [];
}

child_run : convert_to_rosetta_block sample_provider child ≡ ok (answered child (pos 13) (pos 12))
unfolding convert_to_rosetta_block transform_block_txs traverse effective_txs
    Filters.filter_out_intrashard_relayed_transaction_already_held_in_invalid_miniblock keep
    Filters.filter_out_intrashard_contract_results_whose_original_transaction_is_in_invalid_miniblock
    gather_txs flat_map gather_receipts block_to_identifier parent_block_identifier
    timestamp_in_milliseconds Filters.filter_out_rosetta_transactions_with_no_operations int64
child_run = refl

parent_run :
    convert_to_rosetta_block sample_provider parent ≡ ok (answered parent (pos 12) (pos 11))
unfolding convert_to_rosetta_block transform_block_txs traverse effective_txs
    Filters.filter_out_intrashard_relayed_transaction_already_held_in_invalid_miniblock keep
    Filters.filter_out_intrashard_contract_results_whose_original_transaction_is_in_invalid_miniblock
    gather_txs flat_map gather_receipts block_to_identifier parent_block_identifier
    timestamp_in_milliseconds Filters.filter_out_rosetta_transactions_with_no_operations int64
parent_run = refl

convert_to_rosetta_block-linked_example :
    (answered child (pos 13) (pos 12)).parent_block_identifier
    ≡ (answered parent (pos 12) (pos 11)).block_identifier
convert_to_rosetta_block-linked_example =
    convert_to_rosetta_block-linked sample_provider parent child (answered parent (pos 12) (pos 11))
      (answered child (pos 13) (pos 12)) (omega arith) refl refl child_run
      (inl (omega arith, parent_run))
