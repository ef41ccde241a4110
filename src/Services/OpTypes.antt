-- ===== src/Services/OpTypes.antt =====
-- The constants of server/services/operations.go.
use rosetta_images.Base.{List, [], ◌∷◌, Bytes, codes}

abbrev pub genesis_balance_movement : Bytes
genesis_balance_movement = codes "GenesisBalanceMovement"

abbrev pub transfer : Bytes
transfer = codes "Transfer"

abbrev pub fee : Bytes
fee = codes "Fee"

abbrev pub reward : Bytes
reward = codes "Reward"

abbrev pub sc_result : Bytes
sc_result = codes "SmartContractResult"

abbrev pub fee_refund_as_sc_result : Bytes
fee_refund_as_sc_result = codes "FeeRefundAsSmartContractResult"

abbrev pub developer_rewards_as_sc_result : Bytes
developer_rewards_as_sc_result = codes "DeveloperRewardsAsSmartContractResult"

abbrev pub developer_rewards : Bytes
developer_rewards = codes "DeveloperRewards"

abbrev pub fee_of_invalid_tx : Bytes
fee_of_invalid_tx = codes "FeeOfInvalidTransaction"

abbrev pub fee_refund : Bytes
fee_refund = codes "FeeRefund"

abbrev pub custom_transfer : Bytes
custom_transfer = codes "CustomTransfer"

abbrev pub supported_operation_types : List Bytes
supported_operation_types =
    genesis_balance_movement ∷ transfer ∷ fee ∷ reward ∷ sc_result ∷ fee_refund_as_sc_result
    ∷ developer_rewards_as_sc_result ∷ developer_rewards ∷ fee_of_invalid_tx ∷ fee_refund
    ∷ custom_transfer ∷ []

abbrev pub status_success : Bytes
status_success = codes "Success"

abbrev pub status_failure : Bytes
status_failure = codes "Failure"
