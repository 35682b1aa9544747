-- ===== src/Tests.antt =====
-- Tests: definitions run on sample inputs, and the theorems applied to them.
pub mod Literals
pub mod Queries
pub mod Statements
pub mod Driver
pub mod Migrations
pub mod Tables
pub mod Connections
