-- ===== src/Sockets.antt =====
-- The web sockets of a page: app/src/ws-relay.ts and app/src/ws-close.ts.
pub mod Relay
