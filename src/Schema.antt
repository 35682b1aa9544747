-- ===== src/Schema.antt =====
-- The package schema: dialects, values as SQL text, and the query formatter.
pub mod Dialects
pub mod Value
pub mod Formatter
pub mod Sqlfmt
pub mod Table
