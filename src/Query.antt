-- ===== src/Query.antt =====
-- The query builders of the package bun.
pub mod State
pub mod Tables
pub mod Where
pub mod Conds
pub mod Update
pub mod Delete
pub mod Join
pub mod Select
pub mod Insert
pub mod Values
pub mod Ddl
