-- ===== src/Internal.antt =====
-- The package internal: internal/tagparser and internal/underscore.go.
pub mod Tagparser
pub mod Underscore
