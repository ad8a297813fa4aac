-- ===== src/Capi.antt =====
-- The C API: include/questdb/ingress/line_sender.h and questdb-rs-ffi/src/lib.rs.
pub mod Codes
pub mod Enums
pub mod Memory
pub mod Header
pub mod Ffi
