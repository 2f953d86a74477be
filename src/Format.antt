-- ===== src/Format.antt =====
-- src/format: the frames of a .g9p file and the framed records of a block.
pub mod Framing
pub mod Records
