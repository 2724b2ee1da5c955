-- ===== src/Device.antt =====
-- The devices on the session: the macros of src/raspike_internal.h, src/raspike_motor.c,
-- src/raspike_color.c, src/raspike_forcesensor.c, src/raspike_ultrasonicsensor.c and
-- src/raspike_hub.c.
pub mod Common
pub mod Motor
pub mod Sensors
pub mod Hub
mod Tests
