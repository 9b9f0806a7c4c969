-- ===== src/Tests.antt =====
-- Concrete runs of the models, and the theorems at concrete inputs.
mod Decoding
mod Caching
mod Reorgs
mod Encoding
mod Balances
mod Addresses
mod Memory
mod Indexing
mod Ingesting
mod Framing
mod Subscribing
