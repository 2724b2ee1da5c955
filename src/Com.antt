-- ===== src/Com.antt =====
-- src/raspike_com.c: the serial line to the hub.
pub mod Clock
pub mod Os
pub mod Fd
pub mod Usb
pub mod Tests
