-- ===== src/Tests.antt =====
-- Sample parameters, and each theorem at a concrete input.
pub mod Samples
pub mod Hosts
mod Statuses
mod Piles
mod Contracts
mod States
mod Consignments
mod Stores
mod Payments
pub mod Wallets
mod Bundles
mod Fulfilments
mod Invoices
mod Exports
mod Tokens
mod Panics
mod Directories
