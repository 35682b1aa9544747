-- ===== src/Pgdriver.antt =====
-- The PostgreSQL driver: driver/pgdriver.
pub mod WriteBuffer
pub mod Reader
pub mod Replies
pub mod Loops
pub mod Statements
pub mod Total
pub mod Reply
pub mod Sync
pub mod Messages
pub mod Format
pub mod Startup
pub mod Columns
pub mod Rows
pub mod Driver
