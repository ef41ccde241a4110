-- ===== src/Services/Offline.antt =====
-- server/services/offline_services.go: the endpoints that answer in offline mode.
use rosetta_images.Base.{ℕ, Option, none, some}
use rosetta_images.Rosetta.{ApiError}
use rosetta_images.Services.Errors.{ErrFactory, new_err, err_offline_mode}

-- A call of Go code that may dereference a nil pointer.
pub data Outcome : Type 0 where
  -- the pair of a nil response and an error
  failed : ApiError → Outcome
  panicked : Outcome

-- `errFactory` is `none` for a nil pointer.
pub record OfflineService : Type 0 where
  pub err_factory : Option ErrFactory

unfoldable pub new_offline_service : OfflineService
new_offline_service = record { err_factory = none }

-- `factory.newErr(code)` reads a field of the factory.
abbrev pub new_err_at : Option ErrFactory → ℕ → Outcome
new_err_at none code = panicked
new_err_at (some factory) code = failed (new_err factory code)

unfoldable pub account_balance : OfflineService → Outcome
account_balance service = new_err_at service.err_factory err_offline_mode

unfoldable pub account_coins : OfflineService → Outcome
account_coins service = new_err_at service.err_factory err_offline_mode

unfoldable pub block : OfflineService → Outcome
block service = new_err_at service.err_factory err_offline_mode

unfoldable pub block_transaction : OfflineService → Outcome
block_transaction service = new_err_at service.err_factory err_offline_mode

unfoldable pub mempool : OfflineService → Outcome
mempool service = new_err_at service.err_factory err_offline_mode

unfoldable pub mempool_transaction : OfflineService → Outcome
mempool_transaction service = new_err_at service.err_factory err_offline_mode

unfoldable pub network_status : OfflineService → Outcome
network_status service = new_err_at service.err_factory err_offline_mode

unfoldable pub network_options : OfflineService → Outcome
network_options service = new_err_at service.err_factory err_offline_mode

unfoldable pub network_list : OfflineService → Outcome
network_list service = new_err_at service.err_factory err_offline_mode
