-- ===== src/Accounts.antt =====
-- The user's own account (web/src/components/Info.js, Totp.js and AccessToken.js there).
pub mod Password
pub mod Factor
