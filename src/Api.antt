-- ===== src/Api.antt =====
-- internal/api/native/v1: the HTTP API, as far as it computes by itself.
pub mod Numbers
pub mod Ranges
