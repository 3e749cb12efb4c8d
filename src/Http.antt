-- ===== src/Http.antt =====
-- library/src/http and library/inc/networkio/http.
pub mod Url
pub mod Status
pub mod Parser
pub mod Request
pub mod Cookie
pub mod Response
pub mod Server
pub mod Session
pub mod Client
