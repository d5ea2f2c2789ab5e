-- ===== src/Net.antt =====
-- Connections, the server that owns them, and the connector of a client.
pub mod Connection
pub mod Connector
pub mod Pool
pub mod Address
pub mod Socket
pub mod Acceptor
pub mod Server
