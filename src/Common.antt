-- ===== src/Common.antt =====
-- src/common.rs: the types that requests and responses share.
pub mod StatusCode
pub mod Header
pub mod Method
pub mod HttpVersion
