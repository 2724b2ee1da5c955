-- ===== src/Wire/Command.antt =====
-- Command numbers, src/raspike_protocol_com.h, lines 49 to 54, 107 to 127 and 221 to 325: three
-- bits of type above five bits of index.
pub mod Fields
use libraspike_art.Base.{ℕ, ◌*◌, ◌/◌, ◌^◌, bit_and, bit_or}

abbrev pub get_cmd_type : ℕ → ℕ
get_cmd_type cmd = cmd / 2 ^ 5

abbrev pub get_cmd_index : ℕ → ℕ
get_cmd_index cmd = bit_and cmd 0x1f

abbrev pub make_cmd : ℕ → ℕ → ℕ
make_cmd kind id = bit_or (kind * 2 ^ 5) id

abbrev pub type_sys : ℕ
type_sys = 0x0

abbrev pub type_color : ℕ
type_color = 0x1

abbrev pub type_force : ℕ
type_force = 0x2

abbrev pub type_motor : ℕ
type_motor = 0x3

abbrev pub type_us : ℕ
type_us = 0x4

abbrev pub type_hub : ℕ
type_hub = 0x5

abbrev pub cmd_link_hello : ℕ
cmd_link_hello = make_cmd type_sys 0x08

abbrev pub cmd_link_ping : ℕ
cmd_link_ping = make_cmd type_sys 0x09

abbrev pub cmd_link_stats : ℕ
cmd_link_stats = make_cmd type_sys 0x0a

abbrev pub cmd_drive_telemetry : ℕ
cmd_drive_telemetry = make_cmd type_sys 0x0c

abbrev pub cmd_runtime_fault : ℕ
cmd_runtime_fault = make_cmd type_sys 0x0d

abbrev pub cmd_runtime_telemetry : ℕ
cmd_runtime_telemetry = make_cmd type_sys 0x0e

abbrev pub cmd_all_status : ℕ
cmd_all_status = make_cmd type_sys 0x1

abbrev pub cmd_ack : ℕ
cmd_ack = make_cmd type_sys 0x2

abbrev pub cmd_sht_dwn : ℕ
cmd_sht_dwn = make_cmd type_sys 0x3

abbrev pub cmd_soft_rst : ℕ
cmd_soft_rst = make_cmd type_sys 0x4

abbrev pub cmd_update_mode : ℕ
cmd_update_mode = make_cmd type_sys 0x0b

abbrev pub cmd_drive_config : ℕ
cmd_drive_config = make_cmd type_sys 0x5

abbrev pub cmd_drive_command : ℕ
cmd_drive_command = make_cmd type_sys 0x6

abbrev pub cmd_col_cfg : ℕ
cmd_col_cfg = make_cmd type_color 0x0

abbrev pub cmd_col_rgb : ℕ
cmd_col_rgb = make_cmd type_color 0x1

abbrev pub cmd_col_col : ℕ
cmd_col_col = make_cmd type_color 0x2

abbrev pub cmd_col_col_sur_off : ℕ
cmd_col_col_sur_off = make_cmd type_color 0x3

abbrev pub cmd_col_hsv : ℕ
cmd_col_hsv = make_cmd type_color 0x4

abbrev pub cmd_col_hsv_sur_off : ℕ
cmd_col_hsv_sur_off = make_cmd type_color 0x5

abbrev pub cmd_col_ref : ℕ
cmd_col_ref = make_cmd type_color 0x6

abbrev pub cmd_col_amb : ℕ
cmd_col_amb = make_cmd type_color 0x7

abbrev pub cmd_col_light_set : ℕ
cmd_col_light_set = make_cmd type_color 0x8

abbrev pub cmd_col_light_on : ℕ
cmd_col_light_on = make_cmd type_color 0x9

abbrev pub cmd_col_light_off : ℕ
cmd_col_light_off = make_cmd type_color 0xa

abbrev pub cmd_col_detectable_col : ℕ
cmd_col_detectable_col = make_cmd type_color 0xb

abbrev pub cmd_frc_cfg : ℕ
cmd_frc_cfg = make_cmd type_force 0x0

abbrev pub cmd_frc_frc : ℕ
cmd_frc_frc = make_cmd type_force 0x1

abbrev pub cmd_frc_dst : ℕ
cmd_frc_dst = make_cmd type_force 0x2

abbrev pub cmd_frc_prs : ℕ
cmd_frc_prs = make_cmd type_force 0x3

abbrev pub cmd_frc_tch : ℕ
cmd_frc_tch = make_cmd type_force 0x4

abbrev pub cmd_mot_cfg : ℕ
cmd_mot_cfg = make_cmd type_motor 0x0

abbrev pub cmd_mot_stu : ℕ
cmd_mot_stu = make_cmd type_motor 0x1

abbrev pub cmd_mot_rst : ℕ
cmd_mot_rst = make_cmd type_motor 0x2

abbrev pub cmd_mot_spd : ℕ
cmd_mot_spd = make_cmd type_motor 0x3

abbrev pub cmd_mot_pow : ℕ
cmd_mot_pow = make_cmd type_motor 0x4

abbrev pub cmd_mot_stp : ℕ
cmd_mot_stp = make_cmd type_motor 0x5

abbrev pub cmd_mot_stp_brk : ℕ
cmd_mot_stp_brk = make_cmd type_motor 0x6

abbrev pub cmd_mot_stp_hld : ℕ
cmd_mot_stp_hld = make_cmd type_motor 0x7

abbrev pub cmd_mot_set_dty : ℕ
cmd_mot_set_dty = make_cmd type_motor 0x8

abbrev pub cmd_mot_rst_dty : ℕ
cmd_mot_rst_dty = make_cmd type_motor 0x9

abbrev pub cmd_us_cfg : ℕ
cmd_us_cfg = make_cmd type_us 0x0

abbrev pub cmd_us_dst : ℕ
cmd_us_dst = make_cmd type_us 0x1

abbrev pub cmd_us_prc : ℕ
cmd_us_prc = make_cmd type_us 0x2

abbrev pub cmd_us_lgt_set : ℕ
cmd_us_lgt_set = make_cmd type_us 0x3

abbrev pub cmd_us_lgt_on : ℕ
cmd_us_lgt_on = make_cmd type_us 0x4

abbrev pub cmd_us_lgt_off : ℕ
cmd_us_lgt_off = make_cmd type_us 0x5

abbrev pub cmd_hub_disp_ori : ℕ
cmd_hub_disp_ori = make_cmd type_hub 0x1

abbrev pub cmd_hub_disp_off : ℕ
cmd_hub_disp_off = make_cmd type_hub 0x2

abbrev pub cmd_hub_disp_pix : ℕ
cmd_hub_disp_pix = make_cmd type_hub 0x3

abbrev pub cmd_hub_disp_img : ℕ
cmd_hub_disp_img = make_cmd type_hub 0x4

abbrev pub cmd_hub_disp_num : ℕ
cmd_hub_disp_num = make_cmd type_hub 0x5

abbrev pub cmd_hub_disp_chr : ℕ
cmd_hub_disp_chr = make_cmd type_hub 0x6

abbrev pub cmd_hub_disp_txt : ℕ
cmd_hub_disp_txt = make_cmd type_hub 0x7

abbrev pub cmd_hub_disp_txt_scr : ℕ
cmd_hub_disp_txt_scr = make_cmd type_hub 0x8

abbrev pub cmd_hub_lgt_on_hsv : ℕ
cmd_hub_lgt_on_hsv = make_cmd type_hub 0x0a

abbrev pub cmd_hub_lgt_on_col : ℕ
cmd_hub_lgt_on_col = make_cmd type_hub 0x0b

abbrev pub cmd_hub_lgt_off : ℕ
cmd_hub_lgt_off = make_cmd type_hub 0x0c

abbrev pub cmd_hub_spk_set_vol : ℕ
cmd_hub_spk_set_vol = make_cmd type_hub 0x11

abbrev pub cmd_hub_spk_ply_ton : ℕ
cmd_hub_spk_ply_ton = make_cmd type_hub 0x12

abbrev pub cmd_hub_spk_stp : ℕ
cmd_hub_spk_stp = make_cmd type_hub 0x13

abbrev pub cmd_hub_imu_set_tlt : ℕ
cmd_hub_imu_set_tlt = make_cmd type_hub 0x14

abbrev pub cmd_hub_imu_rst_hdg : ℕ
cmd_hub_imu_rst_hdg = make_cmd type_hub 0x15
