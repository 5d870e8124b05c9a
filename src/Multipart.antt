-- ===== src/Multipart.antt =====
-- The multipart client of examples/rdma/c/s3rdmamultipart.c.
pub mod Options
pub mod Plan
pub mod Upload
pub mod Main
pub mod Requests
pub mod Sign
pub mod Store
pub mod Xml
