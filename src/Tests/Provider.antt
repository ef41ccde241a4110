-- ===== src/Tests/Provider.antt =====
-- Blocks and balances through the provider.
use rosetta_images.Base.{
  flat_map, lookup, delete, bytes_beq, ℕ, ◌≡◌, refl, sym, ◌∙◌, List, [], ◌∷◌, false, codes, ok, ltb,
  Bool-cases, inl, inr, arith, Dict,
}
use rosetta_images.Api.{Block}
use mathlib.Core.Option.{none-ne-some}
use rosetta_images.Provider.Cache.{block_nonce_to_bytes, little_endian}
use rosetta_images.Provider.Blocks.{
  fetch_block_by_nonce, get_block_by_nonce, get_plain_node_status, get_latest_block_nonce,
  do_get_block_by_nonce, get_block_by_nonce_cached, cache_block_by_nonce, create_block_copy,
  simplify_block_with_scheduled_transactions,
}
use rosetta_images.Provider.Blocks.Refinement.{IsHonest, get_block_by_nonce-Refines}
use rosetta_images.Provider.Blocks.Returns.{get_block_by_nonce-returns}
use rosetta_images.Provider.Blocks.Final.{
  IsMadeOfFinalBlocks, get_block_by_nonce-IsMadeOfFinalBlocks,
}
use rosetta_images.Provider.Requests.{get_resource, get_resource_with_err_conversion}
use rosetta_images.Provider.NodeStatus.{get_latest_nonce_given_highest_final_nonce}
use rosetta_images.Provider.Scheduled.{
  gather_all_transactions, gather_scheduled_transactions, gather_all_receipts,
  gather_effective_transactions, do_simplify_block_with_scheduled_transactions,
}
use rosetta_images.Provider.Blocks.Calls.{Call, Keeps, by_hash, by_nonce, replay, run, run_refines}
use rosetta_images.Tests.Sample.{sample_libraries}
use rosetta_images.Tests.Observer.{
  chain_block, last_three, observer_at, sample, sample_provider_libraries, nothing_put, status_at,
}

low : (n : ℕ) → ltb 8 n ≡ false → ltb 10 n ≡ false
low n h = ground arith

taller : Keeps sample (observer_at 8) (observer_at 10)
unfolding fetch_block_by_nonce
taller n b h = elim (Bool-cases (ltb 8 n)) [
  | inl e ↦ let no = rw e at h in cc
  | inr e ↦ rw (low n e) (rw e at h)
]

abbrev calls : List Call
calls =
    (observer_at 8, by_nonce 5)
    ∷ (observer_at 10, by_nonce 6)
    ∷ (observer_at 10, by_hash (codes "05"))
    ∷ []

run_refines_example :
    (run (λ txs. txs) 10 sample calls last_three.empty).0 ≡ replay (λ txs. txs) 10 sample calls
run_refines_example =
    run_refines (λ txs. txs) 10 sample (Dict Block) (observer_at 8) calls
      ((λ n b h. h), omega arith, (taller, omega arith, ((λ n b h. h), tt, tt)))

-- The cache holds block 5, which the observer answers.
abbrev cached : Dict Block
cached = last_three.put (block_nonce_to_bytes 5) (chain_block 5) last_three.empty

empty-IsHonest : IsHonest sample (observer_at 8) last_three.empty
empty-IsHonest n b small e =
    elim (none-ne-some b (sym (nothing_put (block_nonce_to_bytes n)) ∙ e)) [ ]

-- After a first call the cache is honest, and not empty.
served :
    IsHonest sample
      (observer_at 8)
      (get_block_by_nonce (λ txs. txs) 10 sample (observer_at 8) 5 last_three.empty).1
served =
    (get_block_by_nonce-Refines (λ txs. txs) 10 sample (observer_at 8) 5 (omega arith)
      last_three.empty empty-IsHonest).1

get_block_by_nonce-returns_example :
    (block : Block) × ((get_block_by_nonce
        (λ txs. txs)
        10
        sample
        (observer_at 8)
        5
        (get_block_by_nonce (λ txs. txs) 10 sample (observer_at 8) 5 last_three.empty).1).0
      ≡ ok block)
unfolding fetch_block_by_nonce gather_all_transactions gather_scheduled_transactions flat_map
    get_plain_node_status get_resource get_resource_with_err_conversion
get_block_by_nonce-returns_example =
    get_block_by_nonce-returns (λ txs. txs) 10 sample (observer_at 8) (λ hash. 0) (Dict Block)
      (get_block_by_nonce (λ txs. txs) 10 sample (observer_at 8) 5 last_three.empty).1 5
      (status_at 8) (chain_block 4) (chain_block 5) (chain_block 6) served (omega arith) refl refl
      (omega arith) (omega arith) refl refl refl tt tt tt tt

abbrev answered : Block
answered = record (chain_block 5) {
  mini_blocks =
      record {
        block_type = codes "Artificial";
        processing_type = [];
        transactions = [];
        receipts = [];
      }
      ∷ record {
        block_type = codes "Artificial";
        processing_type = [];
        transactions = [];
        receipts = [];
      }
      ∷ [];
}

answers_5 :
    (get_block_by_nonce (λ txs. txs) 10 sample (observer_at 8) 5 last_three.empty).0 ≡ ok answered
unfolding get_block_by_nonce get_latest_block_nonce get_plain_node_status get_resource
    get_resource_with_err_conversion get_latest_nonce_given_highest_final_nonce
    do_get_block_by_nonce get_block_by_nonce_cached cache_block_by_nonce fetch_block_by_nonce
    create_block_copy block_nonce_to_bytes little_endian simplify_block_with_scheduled_transactions
    do_simplify_block_with_scheduled_transactions gather_effective_transactions
    gather_all_transactions gather_all_receipts gather_scheduled_transactions flat_map lookup delete
    bytes_beq
answers_5 = refl

get_block_by_nonce-IsMadeOfFinalBlocks_example :
    IsMadeOfFinalBlocks (λ txs. txs) 10 sample (observer_at 8) 5 answered
get_block_by_nonce-IsMadeOfFinalBlocks_example =
    get_block_by_nonce-IsMadeOfFinalBlocks (λ txs. txs) 10 sample (observer_at 8) (Dict Block)
      last_three.empty 5 answered empty-IsHonest (omega arith) answers_5
