-- ===== src/Std.antt =====
-- The parts of Rust's standard library that the bridge (tools/transport_bridge/src/main.rs) calls:
-- numbers in text, UTF-8, and the operations on `str`.
pub mod Decimal
pub mod Utf8
pub mod Str
pub mod Paths
