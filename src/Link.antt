-- ===== src/Link.antt =====
-- src/raspike_protocol.c: the session with the hub.
pub mod State
pub mod Ports
pub mod Process
pub mod System
pub mod Send
pub mod Receive
pub mod Request
pub mod Handshake
pub mod Lifecycle
pub mod Api
pub mod Tests
