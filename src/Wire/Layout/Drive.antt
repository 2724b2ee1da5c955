-- ===== src/Wire/Layout/Drive.antt =====
-- The packed struct `RPDriveTelemetry`, src/raspike_protocol_com.h, lines 209 to 219: its size and
-- the offsets of its fields.
use libraspike_art.Base.{ℕ, ◌+◌, ◌*◌}

abbrev pub size : ℕ
size = 34

abbrev pub motor_count_deg : ℕ → ℕ
motor_count_deg slot = 8 + 4 * slot

abbrev pub motor_speed_deg_s : ℕ → ℕ
motor_speed_deg_s slot = 16 + 4 * slot

abbrev pub motor_power : ℕ → ℕ
motor_power slot = 24 + 2 * slot

abbrev pub reflection : ℕ
reflection = 28

abbrev pub motor_port : ℕ → ℕ
motor_port slot = 30 + slot

abbrev pub color_port : ℕ
color_port = 32

abbrev pub flags : ℕ
flags = 33
