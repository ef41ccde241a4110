-- ===== src/Tests/Scheduled.antt =====
-- Blocks with scheduled transactions, gathered.
use mathlib.Core.List.{Permᴰ}
use mathlib.Core.List.Permᴰ
use rosetta_images.Base.{
  ℕ, ◌≡◌, ◌≢◌, refl, sym, ◌∙◌, ap, ◌↔◌, List, [], ◌∷◌, reverse, some, arith, Bytes, codes, ◌==◌,
  bytes_eq, bytes_beq, if◌then◌else◌, Memᴰ, head, tail, flat_map, get_or, insert, lookup, delete,
}
use rosetta_images.Api.{ApiTransaction, Block}
use rosetta_images.Provider.Scheduled.{
  gather_all_transactions, gather_scheduled_transactions, gather_effective_transactions,
  effective_txs_by_hash, find_immediately_executing_contract_results, values, insert_all,
  direct_contract_results_by_hash,
}
use rosetta_images.Provider.Scheduled as Scheduled
use rosetta_images.Provider.Scheduled.Descendants.{
  DescendsFrom, find_immediately_executing_contract_results_lem,
}
use rosetta_images.Provider.Scheduled.Effective.{HashesIdentify}
use rosetta_images.Provider.Scheduled.Gathered.{IsVisible, gather_effective_transactions_lem}
use rosetta_images.Tests.Sample.{sample_libraries, blank, block_of}

abbrev linked : Bytes → Bytes → ApiTransaction
linked hash previous = record blank { hash = hash; previous_transaction_hash = previous }

abbrev before : ApiTransaction
before = linked (codes "p") []

abbrev now : ApiTransaction
now = linked (codes "c") []

abbrev result_of_before : ApiTransaction
result_of_before = linked (codes "r") (codes "p")

abbrev result_of_now : ApiTransaction
result_of_now = linked (codes "s") (codes "c")

abbrev scheduled_block : ApiTransaction → List ApiTransaction → Block
scheduled_block tx others = record (block_of others) {
  mini_blocks =
      record {
        block_type = codes "TxBlock";
        processing_type = codes "Scheduled";
        transactions = tx ∷ [];
        receipts = [];
      }
      ∷ record {
        block_type = codes "SmartContractResultBlock";
        processing_type = codes "Normal";
        transactions = others;
        receipts = [];
      }
      ∷ [];
}

abbrev rank : Bytes → ℕ
rank hash =
    if hash == [] then 5 else if hash == codes "p" then 3 else if hash == codes "c" then 3 else 1

gather_run : Unit {0}
unfolding flat_map bytes_beq insert lookup delete Scheduled.gather_all_transactions
    Scheduled.gather_scheduled_transactions Scheduled.gather_effective_transactions
    Scheduled.effective_txs_by_hash Scheduled.insert_all Scheduled.delete_all
    Scheduled.find_immediately_executing_contract_results Scheduled.results_of_transactions
    Scheduled.find_immediately_executing_contract_results_of_transaction Scheduled.retain_results
    Scheduled.direct_contract_results_by_hash Scheduled.direct_results_from
gather_run = tt

gather_of_blocks :
    gather_effective_transactions reverse 4 0
      (scheduled_block before [])
      (scheduled_block now (result_of_before ∷ []))
      (block_of (result_of_now ∷ []))
    ≡ some (result_of_now ∷ now ∷ [])
unfolding gather_run
gather_of_blocks = refl

one-HashesIdentify : (s : ApiTransaction) → HashesIdentify (s ∷ [])
one-HashesIdentify s a b (head d) (head e) h = d ∙ sym e
one-HashesIdentify s a b (tail m) n h = elim m [ ]
one-HashesIdentify s a b (head d) (tail n) h = elim n [ ]

two-HashesIdentify : (s t : ApiTransaction) → s.hash ≢ t.hash → HashesIdentify (s ∷ t ∷ [])
two-HashesIdentify s t apart a b (head d) (head e) h = d ∙ sym e
two-HashesIdentify s t apart a b (tail (head d)) (tail (head e)) h = d ∙ sym e
two-HashesIdentify s t apart a b (head d) (tail (head e)) h =
    elim (apart
      (ap (λ (r : ApiTransaction). r.hash) (sym d) ∙ h ∙ ap (λ (r : ApiTransaction). r.hash) e)) [ ]
two-HashesIdentify s t apart a b (tail (head d)) (head e) h =
    elim (apart (
      ap (λ (r : ApiTransaction). r.hash) (sym e)
      ∙ sym h
      ∙ ap (λ (r : ApiTransaction). r.hash) d)) [ ]
two-HashesIdentify s t apart a b (tail (tail m)) n h = elim m [ ]
two-HashesIdentify s t apart a b (head d) (tail (tail n)) h = elim n [ ]
two-HashesIdentify s t apart a b (tail (head d)) (tail (tail n)) h = elim n [ ]

Permᴰ-reverse : (txs : List ApiTransaction) → Permᴰ txs (reverse txs)
Permᴰ-reverse txs = Permᴰ.symm (Permᴰ.reverse txs)

apart : Path Bytes (codes "c") (codes "r") → ⊥
apart e = omega (arith, ap (λ (h : Bytes). get_or h 0 0) e)

gather_effective_transactions_lem_example :
    (out : List ApiTransaction) × (gather_effective_transactions reverse 4 0
        (scheduled_block before [])
        (scheduled_block now (result_of_before ∷ []))
        (block_of (result_of_now ∷ []))
      ≡ some out)
    × ((s : ApiTransaction)
        → Memᴰ s out
          ↔ IsVisible 0
              (before ∷ [])
              (now ∷ result_of_before ∷ [])
              (result_of_now ∷ [])
              (before ∷ [])
              (now ∷ [])
              s)
unfolding gather_run
gather_effective_transactions_lem_example =
    gather_effective_transactions_lem reverse 4 0 rank (scheduled_block before [])
      (scheduled_block now (result_of_before ∷ [])) (block_of (result_of_now ∷ [])) Permᴰ-reverse
      (two-HashesIdentify now result_of_before apart) (one-HashesIdentify result_of_now)
      (ground arith) (ground arith) (ground arith) (ground arith)

find_immediately_executing_contract_results_lem_example :
    (out : List ApiTransaction) × (find_immediately_executing_contract_results 4 0
        (now ∷ [])
        (result_of_now ∷ result_of_before ∷ [])
      ≡ some out)
    × ((s : ApiTransaction)
        → Memᴰ s out ↔ DescendsFrom 0 (result_of_now ∷ result_of_before ∷ []) (now ∷ []) s)
unfolding gather_run
find_immediately_executing_contract_results_lem_example =
    find_immediately_executing_contract_results_lem 0 (result_of_now ∷ result_of_before ∷ []) rank 4
      (now ∷ []) (ground arith) (ground arith)
