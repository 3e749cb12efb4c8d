-- ===== src/Proto.antt =====
-- library/src/proto and library/inc/networkio/proto: packets, and the protocol that frames them.
pub mod StringProto
pub mod Wire
pub mod Packet
pub mod Framing
