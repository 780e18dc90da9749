-- ===== src/Tests.antt =====
-- Sample data, tests and concrete uses of the theorems.
pub mod Sample
mod Sends
mod Jobs
mod Reactions
mod Receipts
mod Tables
mod Deliveries
mod Accounts
mod Changes
mod Avatars
mod Webp
mod Space
mod Typing
mod Ranges
mod Edits
pub mod Merges
mod Incoming
mod Fetch
