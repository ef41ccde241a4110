-- ===== src/Server/Assembly/OfflineStart.antt =====
-- The server that the flag --offline starts.
use rosetta_images.Base.{ℕ, ◌≡◌, refl, ◌∙◌, subst, Bool, true, List, Bytes, codes, Result, ok, err}
use rosetta_images.Failure.{Failure}
use rosetta_images.Rosetta.{NetworkIdentifier}
use rosetta_images.Api.{ApiTransaction, Libraries}
use rosetta_images.Services.Interface as Services
use rosetta_images.Services.Constants.{node_version_for_offline_rosetta}
use rosetta_images.Services.Errors.{err_offline_mode, new_err, new_err_factory}
use rosetta_images.Services.Network.{get_node_version, network_status}
use rosetta_images.Services.ObjectsMaps.{ObjectsMaps}
use rosetta_images.Services.Endpoints.{construction_metadata}
use rosetta_images.Services.Submission.{JsonLibraries, construction_submit}
use rosetta_images.Server.Controllers.{
  AllPanic, Controllers, IsAssembled, construction_service, network_service,
}
use rosetta_images.Server.Flags.{ConfigLibraries, Context}
use rosetta_images.Server.Factory.{FactoryLibraries}
use rosetta_images.Server.Assembly.{HttpServer, services_provider, start_rosetta}
use rosetta_images.Server.Assembly.Started.{start_rosetta_lem}

-- The controllers do without the observer, where their provider is `provider`.
abbrev pub DoesWithoutObserver :
    {M : Type 0} ⦃lib : Libraries⦄ ⦃json : JsonLibraries⦄
    → ObjectsMaps M
    → Services.NetworkProvider
    → Controllers
    → Type 0
DoesWithoutObserver {M} maps provider controllers =
    AllPanic controllers
    × (controllers.network ≡ network_service provider)
    × (network_status provider ≡ err (new_err new_err_factory err_offline_mode))
    × (get_node_version provider ≡ ok node_version_for_offline_rosetta)
    × (controllers.construction ≡ construction_service provider)
    × ((options : M)
        → construction_metadata ⦃maps = maps⦄ new_err_factory provider options
          ≡ err (new_err new_err_factory err_offline_mode))
    × ((signed : Bytes)
        → construction_submit provider signed ≡ err (new_err new_err_factory err_offline_mode))

offline-DoesWithoutObserver :
    {M Asserter : Type 0} ⦃lib : Libraries⦄ ⦃json : JsonLibraries⦄ (maps : ObjectsMaps M)
    (new_server : List Bytes → Bool → List NetworkIdentifier → Result Failure Asserter)
    (provider : Services.NetworkProvider) (controllers : Controllers)
    → provider.is_offline ≡ true
    → IsAssembled new_server provider true controllers
    → DoesWithoutObserver maps provider controllers
unfolding network_status get_node_version construction_submit construction_metadata
offline-DoesWithoutObserver maps new_server provider controllers off
      (network, construction, panics) =
    (
      panics,
      network,
      rw off refl,
      rw off refl,
      construction,
      (λ options. rw off refl),
      λ signed. rw off refl,
    )

module _ {Float Asserter M : Type 0} ⦃lib : Libraries⦄ ⦃json : JsonLibraries⦄ (maps : ObjectsMaps M)
    (factory : FactoryLibraries) (price_of : Float → ℕ → ℕ) (config : ConfigLibraries)
    (new_server : List Bytes → Bool → List NetworkIdentifier → Result Failure Asserter)
    (order : List ApiTransaction → List ApiTransaction) (fuel : ℕ) where
  -- A server that starts with the flag --offline: every request for accounts, blocks and the pool
  -- panics; the network's status, a construction's metadata and the submission of any transaction
  -- are refused with the error of offline mode, and the node's version is the one of offline mode,
  -- whatever the observer would answer.
  pub offline_start :
      (ctx : Context Float) (server : HttpServer)
      → start_rosetta factory price_of config new_server order fuel ctx ≡ ok server
      → ctx.global_bool (codes "offline") ≡ true
      → DoesWithoutObserver maps
          (services_provider factory price_of config new_server order fuel server.created)
          server.controllers
  offline_start ctx server h off =
      let (assembled, offline, _, _, _) =
        start_rosetta_lem factory price_of config new_server order fuel ctx server h in
      let p = services_provider factory price_of config new_server order fuel server.created in
      offline-DoesWithoutObserver maps new_server p server.controllers (offline ∙ off)
        (subst (λ b. IsAssembled new_server p b server.controllers) off assembled)
