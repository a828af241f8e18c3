-- ===== src/Transport.antt =====
-- The transport boundary: delivery evidence (delivery.ts), the connection machine
-- (transport-lifecycle.ts), and the accounting of pumping streams (streams-alive.ts) and of
-- requests in flight (loadstate.ts).
pub mod Delivery
pub mod Lifecycle
pub mod Streams
pub mod Load
