-- ===== src/Wire/Layout/Device.antt =====
-- The offsets in the data of a port and in the payloads of commands, src/raspike_protocol_com.h,
-- lines 242 to 361.
use libraspike_art.Base.{ℕ}

abbrev pub frc_force : ℕ
frc_force = 0

abbrev pub frc_distance : ℕ
frc_distance = 4

abbrev pub frc_touched : ℕ
frc_touched = 8

abbrev pub stu_direction : ℕ
stu_direction = 0

abbrev pub stu_reset_count : ℕ
stu_reset_count = 4

abbrev pub mot_count : ℕ
mot_count = 0

abbrev pub mot_speed : ℕ
mot_speed = 4

abbrev pub mot_power : ℕ
mot_power = 8

abbrev pub mot_is_stalled : ℕ
mot_is_stalled = 10

abbrev pub us_distance : ℕ
us_distance = 0

abbrev pub us_presence : ℕ
us_presence = 4

abbrev pub txt_text : ℕ
txt_text = 8

abbrev pub txt_scr_text : ℕ
txt_scr_text = 4
