-- ===== src/Jwt.antt =====
-- src/JwtUtil.cpp: tokens signed by HMAC-SHA256, and the list of revoked tokens.
pub mod Url
pub mod Claims
pub mod Token
pub mod Blacklist
mod Tests
