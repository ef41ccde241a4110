-- ===== src/Provider/MoveBalance.antt =====
-- server/provider/networkProvider.go: the fee of a move of balance, and the epochs of releases.
use rosetta_images.Base.{ℕ, ◌+◌, ◌*◌, ◌%◌, ◌^◌, Bool, not, leb, is_empty, length, if◌then◌else◌}
use rosetta_images.Api.{ApiTransaction}
use rosetta_images.Resources.{NetworkConfig}
use rosetta_images.Provider.RelayedV3.{is_relayed_tx_v3}

-- The gas limit is a uint64; `core.SafeMul` gives a `big.Int`.
unfoldable pub compute_transaction_fee_for_move_balance : NetworkConfig → ApiTransaction → ℕ
compute_transaction_fee_for_move_balance config tx =
    let gas_limit =
      (config.min_gas_limit + (config.gas_per_data_byte * length tx.tx_data) % 2 ^ 64) % 2 ^ 64 in
    let guarded =
      if not (is_empty tx.guardian_addr)
      then (gas_limit + config.extra_gas_limit_guarded_tx) % 2 ^ 64
      else gas_limit in
    let relayed =
      if is_relayed_tx_v3 tx
      then (guarded + config.extra_gas_limit_relayed_tx_v3) % 2 ^ 64
      else guarded in
    relayed * tx.gas_price

unfoldable pub is_release_sirius_active : ℕ → ℕ → Bool
is_release_sirius_active activation_epoch_sirius epoch = leb activation_epoch_sirius epoch

unfoldable pub is_release_spica_active : ℕ → ℕ → Bool
is_release_spica_active activation_epoch_spica epoch = leb activation_epoch_spica epoch
