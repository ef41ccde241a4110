-- ===== src/Services.antt =====
-- server/services: the Rosetta API on top of a network provider.
pub mod Interface
pub mod Constants
pub mod EventNames
pub mod OpTypes
pub mod Errors
pub mod Offline
pub mod Common
pub mod Converters
pub mod Extension
pub mod Metadata
pub mod Relayed
pub mod Events
pub mod EventsController
pub mod EsdtEvents
pub mod Features
pub mod Filters
pub mod Operations
pub mod TxOperations
pub mod EventOperations
pub mod Transformer
pub mod Options
pub mod Fees
pub mod Construction
pub mod Blocks
pub mod Accounts
pub mod Mempool
pub mod Network
pub mod Submission
pub mod ObjectsMaps
pub mod Endpoints
