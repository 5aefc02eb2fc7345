-- ===== src/Tests.antt =====
-- The theorems at concrete inputs.
pub mod Data
pub mod Wallets
pub mod Decimals
pub mod Trades
pub mod Exchange
pub mod Rounds
pub mod Orders
pub mod Jobs
pub mod Assets
pub mod Limits
pub mod Messages
pub mod Hub
pub mod Ledger
pub mod Accounts
pub mod Routes
pub mod Migrations
