-- ===== src/Tests.antt =====
-- Runs of the modelled code on concrete data.
pub mod Samples
mod Masks
pub mod Channels
mod Members
pub mod Servers
pub mod Connections
pub mod Clients
pub mod Stores
mod Restarts
mod Reopening
mod Questions
mod Accounts
mod Systems
