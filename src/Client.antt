-- ===== src/Client.antt =====
-- The client's own state.
pub mod KnownPeers
