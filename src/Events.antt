-- ===== src/Events.antt =====
-- app/events.py: the bus that passes events on to the event streams of their tenant.
pub mod Bus
pub mod Bounded
pub mod Places
pub mod Account
pub mod Delivery
pub mod Drained
mod Tests
