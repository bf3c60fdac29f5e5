-- ===== src/Util/Sequential.antt =====
-- src/util/sequential.rs: readers and writers that take turns on one stream.
pub mod Writers
pub mod Readers
pub mod Inv
pub mod Order
pub mod Contiguous
pub mod Overtaking
pub mod Waiting
