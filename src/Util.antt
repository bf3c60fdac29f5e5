-- ===== src/Util.antt =====
-- src/util/: the helpers of the server.
pub mod HeaderValue
pub mod EqualReader
pub mod FusedReader
pub mod Sequential
pub mod MessagesQueue
pub mod TaskPool
