-- ===== src/Session.antt =====
-- chat/session: the connections that are online, and the table that holds them.
pub mod Conn
pub mod RateLimit
pub mod Registry
