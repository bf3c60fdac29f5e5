-- ===== src/Sockets.antt =====
-- src/connection.rs, src/util/refined_tcp_stream.rs and src/util/custom_stream.rs. The sockets
-- themselves are the operating system's: an interface.
pub mod Platform
pub mod Connection
pub mod Contract
pub mod Families
pub mod Halves
pub mod CustomStream
pub mod RefinedTcpStream
