-- ===== src/Lib.antt =====
-- Rosetta API for MultiversX: a model of the server, and proofs about it.
--
-- The server answers the requests of the Rosetta API. The network provider (server/provider) gets
-- blocks, accounts and the status of an observer node, and works out which transactions have their
-- effects in a block; the services (server/services) turn them into Rosetta transactions with
-- balance-changing operations, and build and parse transactions for callers.
--
-- Base: names that all modules share: Boolean tests, lists, results, maps and integers. A Go string
--   and a []byte are lists of bytes, a `(value, error)` pair is a Result, a map is an association
--   list with one entry for each key.
-- Text: decimal and hexadecimal texts, big-endian bytes, splitting: what the source takes from the
--   standard library of Go, written out as functions.
-- Failure, Api, Rosetta, Resources: errors, the node's API types, the types of rosetta-sdk-go and
--   those of server/resources, with the fields that the source uses. `Api.Libraries` holds what
--   comes from other repositories (names of events and functions, the test for contract addresses,
--   the decoding of inner transactions); definitions take it as an instance argument.
-- Provider.Scheduled: server/provider/scheduledMiniblocks.go. The search for contract results is
--   recursive over a map, so it takes fuel and gives `none` when this runs out; a rank of hashes
--   that goes down along the links of transactions bounds it. The order in which Go ranges over a
--   map is a parameter. Descendants: what the search finds. ByHash: the map of effective
--   transactions. Effective and Gathered: which transactions the whole routine gathers.
-- Provider.Token, Provider.Currencies, Provider.NodeStatus, Provider.MoveBalance,
--   Provider.RelayedV3: tokenIdentifierParts.go, currenciesProvider.go, nodeStatus.go and
--   transactions.go of server/provider, and the fee of a move of balance and the releases of
--   networkProvider.go.
-- Provider.Observer, Cache, Requests: server/provider/interface.go, converters.go, requests.go and
--   errors.go. The observer is a record of functions, `ObserverFacade`: its answers do not change
--   while one call of the provider takes, and each call may have another observer. The LRU cache is
--   an interface with laws, `BlocksCache`: it holds only what was put there, and may forget.
-- Provider.Blocks, Accounts, Status, Network: networkProvider.go, accounts.go, urls.go and
--   nodeStatus.go. A method that uses the cache is a function from the cache to a result and a
--   cache. A run of the simplification that ends for lack of fuel has the error `out_of_fuel`, and
--   Blocks.Returns gives the fuel that is enough; a panic has the error `index_out_of_range`.
--   Blocks.Uncached is the specification without a cache, Refinement and Calls relate the two.
--   `Network.as_seen_by_services` fills the interface of the services.
-- Services.Interface: what the services ask of a provider (server/services/interface.go), as a
--   record that every service takes as an argument.
-- Services.Common, Constants, Converters, EventNames, Extension, Metadata, OpTypes: common.go,
--   constants.go, converters.go, networkProviderExtension.go, transactionMetadata.go and the names
--   in operations.go.
-- Services.Events, EventsController, EsdtEvents: transactionEvents.go and
--   transactionEventsController.go, the decoding of logs into typed events.
-- Services.Features, Filters, Operations, Relayed: transactionsFeaturesDetector.go,
--   transactionFilters.go, operations.go and relayedTransactions.go.
-- Services.TxOperations, EventOperations, Transformer: transactionsTransformer.go, from the
--   transactions of a block to Rosetta transactions. Ledger, EventLedger, EventValues and Balance:
--   the sums of credits and debits. Finished and Movements: the shape of the result, and what the
--   last loop keeps.
-- Services.Errors, Offline: errors.go and offline_services.go. A nil error factory is `none`, and a
--   call at it panics.
-- Services.Blocks, Accounts, Mempool, Network: blockService.go, accountService.go, mempoolService.go
--   and networkService.go. Blocks.Locking is getGenesisBlock as a step relation on goroutines with
--   the read-write mutex, from any number of requests; Blocks itself has it for one call after the
--   other.
-- Server: the services on top of the provider, and server/factory/controllers.go. Flags, Factory,
--   Assembly: cmd/rosetta/cli.go, config.go and main.go, server/factory/provider.go and
--   observerFacade.go, from the flags of the command to the server before it listens.
-- Services.Options, Fees, Construction: constructionOptions.go, constructionMetadata.go,
--   constructionServiceFee.go and constructionService.go. Gas limits wrap around at 2 ^ 64, fees are
--   unbounded, and the product of a gas price and the float64 modifier is a function of the network
--   configuration. These are the calls between the reading and the writing of object maps.
-- Services.ObjectsMaps, Endpoints: common.go and the calls of constructionService.go with their
--   object maps. encoding/json is a parameter; where a theorem needs it, `IsExactJson` says what it
--   does for UTF-8 strings and for numbers that a float64 holds.
-- Services.Submission: the calls of constructionService.go that carry a transaction as JSON, from
--   payloads to submit. The writing and reading of JSON are parameters.
-- Tests: runs at concrete inputs.
--
-- Not modelled: logging, profiling, the listening and the shutdown of the server, which are I/O, and
-- the test doubles. Copies of blocks are not told apart from the blocks:
-- create_block_copy gives an equal block, and no definition changes one in place. The transformer
-- sets the nonce of the block on transactions that are shared with cached blocks; here it makes
-- new ones, since only log messages read that field.
pub mod Base
pub mod Text
pub mod Failure
pub mod Api
pub mod Rosetta
pub mod Resources
pub mod Provider
pub mod Services
pub mod Server
mod Tests
