-- ===== src/Events.antt =====
-- packages/events: the event bus.
pub mod Bus
