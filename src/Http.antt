-- ===== src/Http.antt =====
-- The HTTP server's parts, under http/.
pub mod Text
pub mod Map
pub mod Request
pub mod Context
pub mod Response
pub mod Server
