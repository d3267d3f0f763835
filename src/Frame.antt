-- ===== src/Frame.antt =====
-- Frames on the wire: src/switching/fr_frame.c and the inline functions of include/vfr/switching.h.
pub mod Addr
pub mod Crc
pub mod Hdlc
pub mod Wire
pub mod Tests
