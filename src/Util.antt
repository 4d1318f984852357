-- ===== src/Util.antt =====
-- internal/util: small helpers that the other packages share.
pub mod Slots
pub mod RingBuffer
