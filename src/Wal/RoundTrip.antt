-- ===== src/Wal/RoundTrip.antt =====
-- Encoding and decoding of payloads: the pieces of one, and whole batches.
pub mod Pieces
pub mod Batch
