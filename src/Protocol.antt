-- ===== src/Protocol.antt =====
-- common/src/protocol.cpp: the messages that cross the network, and their validation.
pub mod Name
pub mod Path
pub mod Message
