-- ===== src/Ring.antt =====
-- core/lbu/ring_spsc.h: the single producer, single consumer ring.
pub mod Alg
pub mod Mirrored
pub mod Reserved
pub mod Handle
pub mod System
