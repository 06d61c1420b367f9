-- ===== src/Server.antt =====
-- server/src/session_table.cpp: the server's memory, in three maps under one mutex, so that every
-- operation is one step.
pub mod Map
pub mod Claims
pub mod Pairing
pub mod Group
pub mod Connection
pub mod Text
pub mod Store
pub mod Action
pub mod Handle
pub mod Closing
pub mod Consistent
pub mod RateLimiter
