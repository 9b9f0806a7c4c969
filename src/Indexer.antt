-- ===== src/Indexer.antt =====
-- runtime/canon-indexer: the events of the log and the decoder of their payloads.
pub mod Event
pub mod Cursor
pub mod Encoder
pub mod Decoder
pub mod Balance
pub mod Progress
pub mod Database
pub mod Core
