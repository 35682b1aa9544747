-- ===== src/Mysqldialect.antt =====
-- dialect/mysqldialect: JSON values as SQL text, and how strings fare in MySQL's default mode.
pub mod Append
pub mod Literal
pub mod Laws
pub mod Backslash
