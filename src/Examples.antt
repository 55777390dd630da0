-- ===== src/Examples.antt =====
-- Concrete tables and services, and runs of the code on them.
pub mod Showing
mod Data
mod Ledgers
mod Stores
mod Calls
mod Chains
mod Payments
mod Issued
mod Servers
mod Partnering
mod Routes
mod Tokens
