-- ===== src/Services/Mempool.antt =====
-- server/services/mempoolService.go: the endpoints /mempool and /mempool/transaction. The second
-- test of `err` in the source reads the error of the look-up, which is nil there.
use rosetta_images.Base.{Option, none, some, Bytes, Result, ok, err, map_err, ◌>>=◌}
use rosetta_images.Api.{ApiTransaction}
use rosetta_images.Rosetta.{ApiError, Transaction}
use rosetta_images.Services.Interface.{NetworkProvider}
use rosetta_images.Services.Errors.{
  err_cannot_parse_pool_transaction, err_not_implemented, err_transaction_is_not_in_pool, new_err,
  new_err_factory, new_err_with_original,
}
use rosetta_images.Services.TxOperations.{mempool_move_balance_tx_to_rosetta_tx}

unfoldable pub mempool : ApiError
mempool = new_err new_err_factory err_not_implemented

module _ (provider : NetworkProvider) where
  abbrev pub pooled : Option ApiTransaction → Result ApiError Transaction
  pooled none = err (new_err new_err_factory err_transaction_is_not_in_pool)
  pooled (some tx) = ok (mempool_move_balance_tx_to_rosetta_tx provider tx)

  unfoldable pub mempool_transaction : Bytes → Result ApiError Transaction
  mempool_transaction hash =
      map_err (new_err_with_original new_err_factory err_cannot_parse_pool_transaction)
        (provider.get_mempool_transaction_by_hash hash)
      >>= pooled
