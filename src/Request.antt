-- ===== src/Request.antt =====
-- src/request.rs: building a request from what was read, and answering it.
pub mod Create
pub mod New
pub mod Answer
pub mod Access
pub mod Notify
