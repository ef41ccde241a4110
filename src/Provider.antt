-- ===== src/Provider.antt =====
-- server/provider: the network provider on top of an observer.
pub mod RelayedV3
pub mod Scheduled
pub mod Token
pub mod NodeStatus
pub mod MoveBalance
pub mod Currencies
pub mod Observer
pub mod Cache
pub mod Requests
pub mod Blocks
pub mod Accounts
pub mod Status
pub mod Network
