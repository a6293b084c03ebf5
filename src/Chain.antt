-- ===== src/Chain.antt =====
-- libraries/chain: the state of the chain and the operations on it.
pub mod Table
pub mod Ledger
pub mod Escrow
pub mod Savings
pub mod Market
pub mod Operations
pub mod Transactions
pub mod Slots
pub mod Irreversible
pub mod Conversions
pub mod Sample
mod Tests
