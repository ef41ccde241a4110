-- ===== src/Server/Assembly/Started.antt =====
-- The server that a start gives, against the flags.
use rosetta_images.Base.{
  ℕ, ◌≡◌, refl, subst, Bool, true, some, List, [], Bytes, codes, Result, ok, >>=-eq-ok,
  ok-injective, Memᴰ,
}
use rosetta_images.Failure.{Failure}
use rosetta_images.Rosetta.{Currency, NetworkIdentifier}
use rosetta_images.Api.{ApiTransaction, Libraries}
use rosetta_images.Provider.Observer.{NetworkProvider}
use rosetta_images.Provider.Currencies.{
  get_custom_currency_by_symbol, has_custom_currency, new_currencies_provider_lem,
}
use rosetta_images.Provider.Network.{
  ArgsNewNetworkProvider, as_seen_by_services, get_genesis_block_summary, new_network_provider,
}
use rosetta_images.Server.Controllers.{
  Controllers, IsAssembled, create_controllers, create_controllers_lem,
}
use rosetta_images.Server.Flags.{
  ConfigLibraries, Context, decide_custom_currencies, uint32, get_parsed_cli_flags,
}
use rosetta_images.Server.Factory.{
  ArgsCreateNetworkProvider, CreatedProvider, FactoryLibraries, create_connection,
  create_network_provider, provider_args,
}
use rosetta_images.Server.Assembly.{HttpServer, args_of_flags, services_provider, start_rosetta}

-- The provider answers symbols by these custom currencies.
abbrev pub KnowsCurrencies : List Currency → NetworkProvider → Type 0
KnowsCurrencies currencies provider =
    ((symbol : Bytes) (currency : Currency)
      → get_custom_currency_by_symbol provider.currencies_provider symbol ≡ some currency
      → Memᴰ currency currencies × (currency.symbol ≡ symbol))
    × ((currency : Currency)
        → Memᴰ currency currencies
        → has_custom_currency provider.currencies_provider currency.symbol ≡ true)

-- The provider has what its arguments say.
abbrev IsMadeWith : ArgsNewNetworkProvider → NetworkProvider → Type 0
IsMadeWith args provider =
    (provider.is_offline ≡ args.is_offline)
    × (provider.observed_actual_shard ≡ args.observed_actual_shard)
    × (provider.network_config ≡ args.network_config)
    × (get_genesis_block_summary provider ≡ record {
      nonce = 0;
      hash = args.genesis_block_hash;
      previous_block_hash = [];
      timestamp = args.genesis_timestamp;
    })
    × KnowsCurrencies args.custom_currencies provider

new_network_provider-IsMadeWith :
    (args : ArgsNewNetworkProvider) (provider : NetworkProvider)
    → new_network_provider args ≡ ok provider
    → IsMadeWith args provider
unfolding new_network_provider get_genesis_block_summary
new_network_provider-IsMadeWith args provider h =
    let (currencies, made, last) = >>=-eq-ok _ _ h in
    subst (IsMadeWith args) (ok-injective last) (
      refl,
      refl,
      refl,
      refl,
      new_currencies_provider_lem 18 args.native_currency_symbol args.custom_currencies currencies
          made,
    )

create_network_provider-IsMadeWith :
    {Float : Type 0} (factory : FactoryLibraries) (price_of : Float → ℕ → ℕ)
    (args : ArgsCreateNetworkProvider Float) (created : CreatedProvider)
    → create_network_provider factory price_of args ≡ ok created
    → IsMadeWith (provider_args factory price_of args) created.provider
unfolding create_network_provider
create_network_provider-IsMadeWith factory price_of args created h =
    let (connection, _, h1) = >>=-eq-ok (create_connection factory price_of args) _ h in
    let (provider, made, last) =
      >>=-eq-ok (new_network_provider (provider_args factory price_of args)) _ h1 in
    subst (λ (c : CreatedProvider). IsMadeWith (provider_args factory price_of args) c.provider)
      (ok-injective last)
      (new_network_provider-IsMadeWith (provider_args factory price_of args) provider made)

module _ {Float Asserter : Type 0} ⦃lib : Libraries⦄ (factory : FactoryLibraries)
    (price_of : Float → ℕ → ℕ) (config : ConfigLibraries)
    (new_server : List Bytes → Bool → List NetworkIdentifier → Result Failure Asserter)
    (order : List ApiTransaction → List ApiTransaction) (fuel : ℕ) (ctx : Context Float) where
  -- The controllers and the provider are as the flags say, where the currencies are those of the
  -- configuration.
  abbrev pub FollowsFlags : HttpServer → Type 0
  FollowsFlags server =
      IsAssembled new_server
        (services_provider factory price_of config new_server order fuel server.created)
        (ctx.global_bool (codes "offline")) server.controllers
      × ((services_provider factory price_of config new_server order fuel server.created).is_offline
          ≡ ctx.global_bool (codes "offline"))
      × (server.created.provider.observed_actual_shard
          ≡ uint32 (ctx.global_uint (codes "observer-actual-shard")))
      × (get_genesis_block_summary server.created.provider ≡ record {
        nonce = 0;
        hash = ctx.global_string (codes "genesis-block");
        previous_block_hash = [];
        timestamp = 0;
      })
      × ((currencies : List Currency) × (decide_custom_currencies config
              (ctx.global_string (codes "config-custom-currencies"))
            ≡ ok currencies)
          × KnowsCurrencies currencies server.created.provider)

  started :
      (currencies : List Currency) (created : CreatedProvider) (controllers : Controllers)
      → decide_custom_currencies config (ctx.global_string (codes "config-custom-currencies"))
        ≡ ok currencies
      → create_network_provider factory price_of
          (args_of_flags (get_parsed_cli_flags ctx) currencies)
        ≡ ok created
      → create_controllers new_server
          (services_provider factory price_of config new_server order fuel created)
        ≡ ok controllers
      → FollowsFlags (record {
        port = (get_parsed_cli_flags ctx).port;
        created = created;
        controllers = controllers;
        pprof = (get_parsed_cli_flags ctx).should_enable_pprof_endpoints;
      })
  unfolding services_provider as_seen_by_services args_of_flags get_parsed_cli_flags provider_args
  started currencies created controllers decided made assembled =
      let (offline, shard, _, genesis, knows) =
        create_network_provider-IsMadeWith factory price_of
          (args_of_flags (get_parsed_cli_flags ctx) currencies) created made in
      let p = services_provider factory price_of config new_server order fuel created in
      (
        subst (λ b. IsAssembled new_server p b controllers) offline
            (create_controllers_lem new_server p controllers assembled),
        offline,
        shard,
        genesis,
        (currencies, decided, knows),
      )

  -- A server that starts: its controllers are those of the mode that the flag --offline gives, and
  -- its provider is in that mode, observes the shard of the flag (as a uint32), has the flag's
  -- genesis block, always with the timestamp 0; the configuration's currencies are read, and the
  -- provider answers a symbol with one of them that has it, and has the symbol of each of them.
  pub start_rosetta_lem :
      (server : HttpServer)
      → start_rosetta factory price_of config new_server order fuel ctx ≡ ok server
      → FollowsFlags server
  unfolding start_rosetta get_parsed_cli_flags
  start_rosetta_lem server h =
      let (currencies, decided, h1) = >>=-eq-ok (decide_custom_currencies config _) _ h in
      let (created, made, h2) = >>=-eq-ok (create_network_provider factory price_of _) _ h1 in
      let (controllers, assembled, last) = >>=-eq-ok (create_controllers new_server _) _ h2 in
      subst FollowsFlags (ok-injective last)
        (started currencies created controllers decided made assembled)
