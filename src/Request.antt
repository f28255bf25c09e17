-- ===== src/Request.antt =====
-- The requests to the server (web/src/common/request.js), the calls of the server's interface on
-- top of them (web/src/api/api.js, web/src/api/session.js) and the login form
-- (web/src/components/Login.js).
pub mod Handlers
pub mod Verbs
pub mod Settling
pub mod Api
pub mod Endpoints
pub mod Reports
pub mod Login
