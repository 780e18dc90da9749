-- ===== src/App.antt =====
-- internal/app: the service between the providers, the store and the clients.
pub mod Notifications
pub mod Session
pub mod Send
pub mod MediaSend
pub mod Webp
pub mod Quota
pub mod Activity
pub mod MediaFiles
pub mod MediaFetch
