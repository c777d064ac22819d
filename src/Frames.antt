-- ===== src/Frames.antt =====
-- client/common/network/net.c: what a received Ethernet frame makes the adapter send, and which
-- datagrams reach the handlers.
pub mod Memory
pub mod Answers
pub mod Datagrams
pub mod Stack
pub mod Puts
pub mod Arp
pub mod Sums
pub mod Echo
pub mod Silence
pub mod Unanswered
pub mod Delivered
