-- ===== src/Util.antt =====
-- chat/util: the idempotency cache, base64url, and the texts of ids and times.
pub mod Lru
pub mod Base64Url
pub mod Uuid
pub mod Time
