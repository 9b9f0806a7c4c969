-- ===== src/Subscribe.antt =====
-- runtime/canon-event-subscribe: the event fan-out server.
pub mod EventCache
pub mod Frame
pub mod Subscription
