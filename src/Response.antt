-- ===== src/Response.antt =====
-- src/response.rs: responses, how they are built and how they are sent.
pub mod TransferEncoding
pub mod Builder
pub mod Prepare
pub mod Print
pub mod Access
