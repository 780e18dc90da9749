-- ===== src/Store.antt =====
-- The SQLite store (internal/store/sqlite).
pub mod Tables
pub mod Conversations
pub mod Attachments
pub mod Messages
pub mod Uploads
pub mod MediaJobs
pub mod Links
pub mod Reactions
pub mod Receipts
pub mod Media
pub mod Deliveries
pub mod MergeParts
pub mod Merge
pub mod Chats
pub mod Incoming
pub mod Changes
pub mod Avatars
