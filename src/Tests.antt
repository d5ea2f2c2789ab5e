-- ===== src/Tests.antt =====
-- Each theorem at concrete values.
pub mod Buffers
pub mod Parsing
pub mod Lives
pub mod Texts
pub mod Sessions
pub mod Turning
pub mod Polling
pub mod Epolling
pub mod Connections
pub mod Timing
pub mod Stocks
pub mod Clients
pub mod Threads
pub mod Serving
