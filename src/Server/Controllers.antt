-- ===== src/Server/Controllers.antt =====
-- server/factory/controllers.go: which service answers which requests.
use rosetta_images.Base.{
  ◌≡◌, refl, Bool, true, false, List, [], ◌∷◌, Bytes, Result, ok, ◌>>=◌, if◌then◌else◌, >>=-eq-ok,
  ok-injective, subst,
}
use rosetta_images.Failure.{Failure}
use rosetta_images.Rosetta.{NetworkIdentifier}
use rosetta_images.Services.Interface.{NetworkProvider}
use rosetta_images.Services.OpTypes.{supported_operation_types}
use rosetta_images.Services.Offline.{
  OfflineService, account_balance, account_coins, block, block_transaction, mempool,
  mempool_transaction, new_offline_service, panicked,
}

-- A service, made by its constructor for a provider; the offline service takes none.
pub data Service : Type 0 where
  network_service : NetworkProvider → Service
  account_service : NetworkProvider → Service
  block_service : NetworkProvider → Service
  mempool_service : NetworkProvider → Service
  construction_service : NetworkProvider → Service
  offline_service : OfflineService → Service

-- The controllers of rosetta-sdk-go only route requests to their service, past the asserter.
pub record Controllers : Type 0 where
  pub network : Service
  pub account : Service
  pub block : Service
  pub mempool : Service
  pub construction : Service

-- The service answers requests for accounts, blocks and the pool by a panic.
abbrev pub Panics : Service → Type 0
Panics (offline_service service) =
    (account_balance service ≡ panicked)
    × (account_coins service ≡ panicked)
    × (block service ≡ panicked)
    × (block_transaction service ≡ panicked)
    × (mempool service ≡ panicked)
    × (mempool_transaction service ≡ panicked)
Panics _ = ⊥

new_offline_service-Panics : Panics (offline_service new_offline_service)
unfolding new_offline_service account_balance account_coins block block_transaction mempool
    mempool_transaction
new_offline_service-Panics = (refl, refl, refl, refl, refl, refl)

abbrev pub AllPanic : Controllers → Type 0
AllPanic controllers =
    Panics controllers.account × Panics controllers.block × Panics controllers.mempool

-- `new_server` is `asserter.NewServer` for operation types and network identifiers.
module _ {Asserter : Type 0}
    (new_server : List Bytes → Bool → List NetworkIdentifier → Result Failure Asserter)
    (provider : NetworkProvider) where
  unfoldable pub create_asserter : Result Failure Asserter
  create_asserter = new_server supported_operation_types true (
      record {
        blockchain = provider.get_blockchain_name;
        network = provider.get_network_config.network_name;
      }
      ∷ [])

  unfoldable pub create_offline_controllers : Result Failure Controllers
  create_offline_controllers = create_asserter >>= λ asserter. ok (record {
    network = network_service provider;
    account = offline_service new_offline_service;
    block = offline_service new_offline_service;
    mempool = offline_service new_offline_service;
    construction = construction_service provider;
  })

  unfoldable pub create_online_controllers : Result Failure Controllers
  create_online_controllers = create_asserter >>= λ asserter. ok (record {
    network = network_service provider;
    account = account_service provider;
    block = block_service provider;
    mempool = mempool_service provider;
    construction = construction_service provider;
  })

  unfoldable pub create_controllers : Result Failure Controllers
  create_controllers =
      if provider.is_offline then create_offline_controllers else create_online_controllers

  -- The services of the controllers, in offline mode or not.
  abbrev pub IsAssembled : Bool → Controllers → Type 0
  IsAssembled offline controllers =
      (controllers.network ≡ network_service provider)
      × (controllers.construction ≡ construction_service provider)
      × (if offline
          then AllPanic controllers
          else ((controllers.account ≡ account_service provider)
              × (controllers.block ≡ block_service provider)
              × (controllers.mempool ≡ mempool_service provider)))

  assembled :
      (offline : Bool) (controllers : Controllers)
      → (if offline then create_offline_controllers else create_online_controllers) ≡ ok controllers
      → IsAssembled offline controllers
  unfolding create_offline_controllers create_online_controllers
  assembled true controllers h =
      let (_, _, last) = >>=-eq-ok create_asserter _ h in
      subst (IsAssembled true) (ok-injective last) (
        refl,
        refl,
        (new_offline_service-Panics, new_offline_service-Panics, new_offline_service-Panics),
      )
  assembled false controllers h =
      let (_, _, last) = >>=-eq-ok create_asserter _ h in
      subst (IsAssembled false) (ok-injective last) (refl, refl, (refl, refl, refl))

  -- Where the server is assembled: in offline mode the endpoints of accounts, blocks and the pool
  -- all belong to an offline service, and that one panics at every request; otherwise each of
  -- them belongs to its own service of the provider. The endpoints of the network and of the
  -- construction always belong to services of the provider.
  pub create_controllers_lem :
      (controllers : Controllers)
      → create_controllers ≡ ok controllers
      → IsAssembled provider.is_offline controllers
  unfolding create_controllers
  create_controllers_lem controllers h = assembled provider.is_offline controllers h
