-- ===== src/Memory.antt =====
-- library/src/memory and library/inc/networkio/memory: the byte buffers.
pub mod Block
pub mod Slices
pub mod Queue
pub mod Fifo
pub mod Ring
pub mod Shared
