-- ===== src/Auth.antt =====
-- chat/auth: the tokens that clients connect with.
pub mod Jwt
