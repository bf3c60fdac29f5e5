-- ===== src/Client.antt =====
-- src/client.rs: reading requests from a connection.
pub mod RequestLine
pub mod ReadLine
pub mod Head
pub mod Connection
