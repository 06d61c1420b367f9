-- ===== src/Tests.antt =====
-- Every property at a concrete input.
mod Messages
mod Datagrams
mod Sessions
mod Connections
mod Handlers
mod Limits
mod Sending
