-- ===== src/Protocol/Message.antt =====
-- common/src/protocol.cpp: the messages. Each child has a group of them, with the round trip and
-- what a decoded message satisfies.
pub mod Common
pub mod Hello
pub mod GroupName
pub mod Introduction
pub mod Peer
pub mod Group
pub mod Offer
pub mod Transfer
