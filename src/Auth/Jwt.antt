-- ===== src/Auth/Jwt.antt =====
-- chat/auth/jwt: the check of a JSON web token, HS256.
pub mod Split
pub mod Numbers
pub mod Verify
