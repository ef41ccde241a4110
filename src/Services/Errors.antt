-- ===== src/Services/Errors.antt =====
-- server/services/errors.go: the codes of the API's errors and their prototypes.
use rosetta_images.Base.{
  ℕ, Bool, true, false, Option, none, some, List, [], ◌∷◌, map, Bytes, codes, ◌==◌, nat_eq,
  if◌then◌else◌,
}
use rosetta_images.Failure.{Failure}
use rosetta_images.Rosetta.{ApiError}

abbrev pub err_unknown : ℕ
err_unknown = 1

abbrev pub err_unable_to_get_account : ℕ
err_unable_to_get_account = 2

abbrev pub err_invalid_account_address : ℕ
err_invalid_account_address = 3

abbrev pub err_unable_to_get_block : ℕ
err_unable_to_get_block = 4

abbrev pub err_not_implemented : ℕ
err_not_implemented = 5

abbrev pub err_unable_to_submit_transaction : ℕ
err_unable_to_submit_transaction = 6

abbrev pub err_malformed_value : ℕ
err_malformed_value = 7

abbrev pub err_unable_to_get_node_status : ℕ
err_unable_to_get_node_status = 8

abbrev pub err_must_query_by_index_or_by_hash : ℕ
err_must_query_by_index_or_by_hash = 9

abbrev pub err_construction : ℕ
err_construction = 10

abbrev pub err_unable_to_get_network_config : ℕ
err_unable_to_get_network_config = 11

abbrev pub err_unsupported_curve_type : ℕ
err_unsupported_curve_type = 12

abbrev pub err_insufficient_gas_limit : ℕ
err_insufficient_gas_limit = 13

abbrev pub err_gas_price_too_low : ℕ
err_gas_price_too_low = 14

abbrev pub err_transaction_is_not_in_pool : ℕ
err_transaction_is_not_in_pool = 15

abbrev pub err_cannot_parse_pool_transaction : ℕ
err_cannot_parse_pool_transaction = 16

abbrev pub err_invalid_input_param : ℕ
err_invalid_input_param = 17

abbrev pub err_offline_mode : ℕ
err_offline_mode = 18

abbrev pub err_unable_to_get_genesis_block : ℕ
err_unable_to_get_genesis_block = 19

pub record ErrPrototype : Type 0 where
  pub code : ℕ
  pub message : Bytes
  pub retriable : Bool

-- A `map[errCode]errPrototype`: the entry that was added last is in front.
pub record ErrFactory : Type 0 where
  pub prototypes : List ErrPrototype
  pub prototypes_map : List (ℕ × ErrPrototype)

abbrev prototype : ℕ → Bytes → Bool → ErrPrototype
prototype code message retriable = record { code = code; message = message; retriable = retriable }

abbrev pub err_prototypes : List ErrPrototype
err_prototypes =
    prototype err_unknown (codes "unknown error") false
    ∷ prototype err_unable_to_get_account (codes "unable to get account") true
    ∷ prototype err_invalid_account_address (codes "invalid account address") false
    ∷ prototype err_unable_to_get_block (codes "unable to get block") true
    ∷ prototype err_not_implemented (codes "operation not implemented") false
    ∷ prototype err_unable_to_submit_transaction (codes "unable to submit transaction") true
    ∷ prototype err_malformed_value (codes "malformed value") false
    ∷ prototype err_unable_to_get_node_status (codes "unable to get node status") true
    ∷ prototype err_must_query_by_index_or_by_hash (codes "must query block by index or by hash")
        false
    ∷ prototype err_construction (codes "construction error") false
    ∷ prototype err_unable_to_get_network_config (codes "unable to get network config") true
    ∷ prototype err_invalid_input_param (codes "Invalid input param: ") false
    ∷ prototype err_unsupported_curve_type (codes "unsupported curve type") false
    ∷ prototype err_insufficient_gas_limit (codes "insufficient gas limit") false
    ∷ prototype err_gas_price_too_low (codes "gas price is to low") false
    ∷ prototype err_transaction_is_not_in_pool (codes "transaction is not in pool") true
    ∷ prototype err_cannot_parse_pool_transaction (codes "cannot parse pool transaction") false
    ∷ prototype err_offline_mode (codes "rosetta server is in offline mode") false
    ∷ prototype err_unable_to_get_genesis_block (codes "unable to get genesis block") true
    ∷ []

-- The loop that fills `prototypesMap`.
abbrev map_prototypes : List (ℕ × ErrPrototype) → List ErrPrototype → List (ℕ × ErrPrototype)
map_prototypes m [] = m
map_prototypes m (p ∷ ps) = map_prototypes ((p.code, p) ∷ m) ps

unfoldable pub create_err_prototypes : List ErrPrototype × List (ℕ × ErrPrototype)
create_err_prototypes = (err_prototypes, map_prototypes [] err_prototypes)

unfoldable pub new_err_factory : ErrFactory
unfolding create_err_prototypes
new_err_factory = record {
  prototypes = create_err_prototypes.0;
  prototypes_map = create_err_prototypes.1;
}

abbrev entry_of : ℕ → List (ℕ × ErrPrototype) → Option ErrPrototype
entry_of code [] = none
entry_of code ((c, p) ∷ m) = let rest = entry_of code m in if c == code then some p else rest

-- Go gives the zero value for a missing key.
abbrev or_zero : Option ErrPrototype → ErrPrototype
or_zero none = prototype 0 [] false
or_zero (some p) = p

abbrev or_unknown : ErrFactory → Option ErrPrototype → ErrPrototype
or_unknown factory none = or_zero (entry_of err_unknown factory.prototypes_map)
or_unknown factory (some p) = p

unfoldable pub get_prototype_by_code : ErrFactory → ℕ → ErrPrototype
get_prototype_by_code factory code = or_unknown factory (entry_of code factory.prototypes_map)

unfoldable pub new_err : ErrFactory → ℕ → ApiError
unfolding get_prototype_by_code
new_err factory code =
    let p = get_prototype_by_code factory code in
    record { code = code; message = p.message; retriable = p.retriable; details = none }

-- The text of the original error is the error itself here.
unfoldable pub new_err_with_original : ErrFactory → ℕ → Failure → ApiError
unfolding new_err
new_err_with_original factory code original_error = record (new_err factory code) {
  details = some original_error;
}

abbrev error_of : ErrPrototype → ApiError
error_of p = record { code = p.code; message = p.message; retriable = p.retriable; details = none }

unfoldable pub get_possible_errors : ErrFactory → List ApiError
get_possible_errors factory = map error_of factory.prototypes
