-- ===== src/Webhooks.antt =====
-- webhooks/: the outbox of pending deliveries, the emitter that dials, and the worker between them.
pub mod Entry
pub mod Outbox
pub mod Subscriptions
pub mod Emitter
pub mod Signing
pub mod Urls
pub mod Transport
pub mod Dispatcher
pub mod Worker
mod Tests
