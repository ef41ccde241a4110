-- ===== src/Services/Constants.antt =====
-- server/services/constants.go. Those that the source takes
-- from mx-chain-core-go are fields of `Libraries`.
use rosetta_images.Base.{ℕ, ◌++◌, Bytes, codes, replicate}
use rosetta_images.Text.Hex.{hex_encode}

abbrev pub transaction_version : ℕ
transaction_version = 1

abbrev pub processing_type_relayed_v1 : Bytes
processing_type_relayed_v1 = codes "RelayedTx"

abbrev pub processing_type_built_in_function_call : Bytes
processing_type_built_in_function_call = codes "BuiltInFunctionCall"

abbrev pub processing_type_move_balance : Bytes
processing_type_move_balance = codes "MoveBalance"

abbrev pub processing_type_contract_invoking : Bytes
processing_type_contract_invoking = codes "SCInvoking"

abbrev pub processing_type_contract_deployment : Bytes
processing_type_contract_deployment = codes "SCDeployment"

abbrev pub amount_zero : Bytes
amount_zero = codes "0"

abbrev pub refund_gas_message : Bytes
refund_gas_message = codes "refundedGas"

abbrev pub arguments_separator : ℕ
arguments_separator = b'@'

unfoldable pub sending_value_to_non_payable_contract_data_prefix : Bytes
sending_value_to_non_payable_contract_data_prefix =
    codes "@" ++ hex_encode (codes "sending value to non payable contract")

unfoldable pub empty_hash : Bytes
empty_hash = replicate 64 b'0'

abbrev pub node_version_for_offline_rosetta : Bytes
node_version_for_offline_rosetta = codes "N / A"

abbrev pub system_contract_deploy_address : Bytes
system_contract_deploy_address =
    codes "erd1qqqqqqqqqqqqqqqqqqqqqqqqqqqqqqqqqqqqqqqqqqqqqqqqqqqq6gq4hu"

abbrev pub native_as_esdt_identifier : Bytes
native_as_esdt_identifier = codes "EGLD-000000"
