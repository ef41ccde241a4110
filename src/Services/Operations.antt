-- ===== src/Services/Operations.antt =====
-- server/services/operations.go. The operations of a transaction are shared with nothing else, so
-- the loops that write their fields give new lists.
use rosetta_images.Base.{
  ℕ, ◌+◌, Bool, Option, none, some, List, [], ◌∷◌, map, Bytes, Result, ok, ◌>>=◌, if◌then◌else◌,
  keep,
}
use rosetta_images.Failure.{Failure}
use rosetta_images.Rosetta.{Operation, Amount}
use rosetta_images.Services.Common.{is_non_zero_amount}
use rosetta_images.Services.Converters.{
  index_to_operation_identifier, address_to_account_identifier,
}
use rosetta_images.Services.OpTypes.{status_success}

-- A new operation: no index yet, and no status.
abbrev pub new_operation : Bytes → Bytes → Amount → Operation
new_operation op_type address amount = record {
  operation_identifier = none;
  op_type = op_type;
  status = none;
  account = address_to_account_identifier address;
  amount = amount;
}

unfoldable pub index_from : ℕ → List Operation → List Operation
index_from index [] = []
index_from index (operation ∷ operations) =
    record operation { operation_identifier = some (index_to_operation_identifier index) }
    ∷ index_from (index + 1) operations

unfoldable pub index_operations : List Operation → List Operation
unfolding index_from
index_operations operations = index_from 0 operations

-- The loop of `filterOperationsByAddress`, which stops at the first error.
unfoldable pub observed_operations :
    (Bytes → Result Failure Bool) → List Operation → Result Failure (List Operation)
observed_operations predicate [] = ok []
observed_operations predicate (operation ∷ operations) = do
  should_include ← predicate operation.account.address
  rest ← observed_operations predicate operations
  ok (if should_include then operation ∷ rest else rest)

unfoldable pub filter_operations_by_address :
    (Bytes → Result Failure Bool) → List Operation → Result Failure (List Operation)
filter_operations_by_address predicate operations = do
  filtered ← observed_operations predicate operations
  ok (index_operations filtered)

unfoldable pub filter_out_operations_with_zero_amount : List Operation → List Operation
filter_out_operations_with_zero_amount operations =
    index_operations (keep (λ operation. is_non_zero_amount operation.amount.value) operations)

abbrev pub default_status : Option Bytes → Option Bytes
default_status none = some status_success
default_status (some status) = some status

unfoldable pub apply_default_status_on_operations : List Operation → List Operation
apply_default_status_on_operations =
    map (λ (operation : Operation). record operation { status = default_status operation.status })
