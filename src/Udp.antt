-- ===== src/Udp.antt =====
-- client/src/reliable_udp.cpp: the reliable byte stream over UDP.
pub mod Sequence
pub mod Packet
pub mod Receive
pub mod Send
