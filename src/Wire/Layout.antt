-- ===== src/Wire/Layout.antt =====
-- The frame format and the structs of src/raspike_protocol_com.h. A struct that the code copies
-- whole by `memcpy` is a list of its bytes; the offsets of its fields are those of the declarations
-- (`RPProtocolSpikeStatus` has natural alignment and no gap, the telemetry structs are packed).
pub mod Status
pub mod Drive
pub mod Runtime
pub mod Device
use libraspike_art.Base.{ℕ, ◌+◌}

-- Lines 8 to 28: start bytes, and the offsets in a frame of version 2.
abbrev pub cmd_init : ℕ
cmd_init = 0xAE

abbrev pub cmd_start : ℕ
cmd_start = 0xEA

abbrev pub cmd_init_magic : ℕ
cmd_init_magic = 0xCE

abbrev pub v2_start : ℕ
v2_start = 0xEB

abbrev pub v2_version : ℕ
v2_version = 2

abbrev pub v2_header_size : ℕ
v2_header_size = 14

abbrev pub v2_crc_size : ℕ
v2_crc_size = 2

abbrev pub v2_frame_overhead : ℕ
v2_frame_overhead = v2_header_size + v2_crc_size

abbrev pub v2_max_payload : ℕ
v2_max_payload = 240

abbrev pub v2_offset_version : ℕ
v2_offset_version = 1

abbrev pub v2_offset_flags : ℕ
v2_offset_flags = 2

abbrev pub v2_offset_cmd : ℕ
v2_offset_cmd = 3

abbrev pub v2_offset_port : ℕ
v2_offset_port = 4

abbrev pub v2_offset_size : ℕ
v2_offset_size = 5

abbrev pub v2_offset_sequence : ℕ
v2_offset_sequence = 6

abbrev pub v2_offset_session : ℕ
v2_offset_session = 10

abbrev pub v2_offset_payload : ℕ
v2_offset_payload = 14

abbrev pub v2_flag_high_priority : ℕ
v2_flag_high_priority = 4

abbrev pub v2_cap_framing : ℕ
v2_cap_framing = 1

abbrev pub v2_hello_payload_size : ℕ
v2_hello_payload_size = 12

abbrev pub port_none : ℕ
port_none = 255

abbrev pub protocol_bufmax : ℕ
protocol_bufmax = 256

abbrev pub soft_reset_magic : ℕ
soft_reset_magic = 0x52535431

abbrev pub update_mode_magic : ℕ
update_mode_magic = 0x55504431

-- Lines 174 to 177.
abbrev pub drive_motor_slots : ℕ
drive_motor_slots = 2

abbrev pub drive_color_valid : ℕ
drive_color_valid = 4
