-- ===== src/L1.antt =====
-- runtime/canon-l1-ingest: the window onto the L1 chain, the address book, and the encoder of the
-- actions.
pub mod Reorg
pub mod Action
pub mod Encoding
pub mod AddressBook
pub mod Events
pub mod Translation
pub mod Journal
pub mod Watcher
