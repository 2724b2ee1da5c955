-- ===== src/Wire.antt =====
-- src/raspike_protocol_com.h: the words, the check sum, the command numbers and the structs that
-- both ends of the link share.
pub mod Word
pub mod Crc
pub mod Command
pub mod Layout
mod Tests
