-- ===== src/Dialect.antt =====
-- dialect/append.go: how values become SQL text.
pub mod Utf8
pub mod Append
pub mod Ident
pub mod Literal
pub mod Strings
pub mod Hex
pub mod Json
