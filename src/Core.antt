-- ===== src/Core.antt =====
-- Package core: the data types (core/data.go) and the encoding parameters (core/encoding.go).
mod Data
pub mod Encoding
pub use Data.*
