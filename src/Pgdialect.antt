-- ===== src/Pgdialect.antt =====
-- dialect/pgdialect: arrays as SQL text, and their text form read back.
pub mod Array
pub mod ArrayParser
pub mod ArrayRoundTrip
pub mod ArrayQuote
