-- ===== src/Device/Hub.antt =====
-- The status getters and the display of src/raspike_hub.c. A float is its four bytes. A C string is
-- the bytes before its NUL. A pointer that may be NULL is an `Option`, the place it points to for a
-- result is the `Option` of a pair that comes back.
pub mod Sound
use libraspike_art.Base.{
  ℕ, ◌+◌, ◌-◌, ◌&&◌, not, List, [], ◌∷◌, ◌++◌, Option, none, some, Bool, true, false, ltb, ◌==◌,
  if◌then◌else◌, length, slice, replicate, drop, ℤ, pos, neg, is_neg, ◌==ℤ◌, Action, pure, ◌>>=◌,
}
use libraspike_art.Base.Errno.{einval, enotconn}
use libraspike_art.Wire.Word.{u8, get_u16, get_u32, put_u32}
use libraspike_art.Wire.Layout.{port_none, v2_max_payload}
use libraspike_art.Wire.Layout.Status
use libraspike_art.Wire.Command.{
  cmd_hub_disp_ori, cmd_hub_disp_off, cmd_hub_disp_pix, cmd_hub_disp_img, cmd_hub_disp_num,
  cmd_hub_disp_chr, cmd_hub_disp_txt, cmd_hub_disp_txt_scr, cmd_hub_imu_set_tlt,
  cmd_hub_imu_rst_hdg,
}
use libraspike_art.Com.Fd.{Buf, null, bytes}
use libraspike_art.Com.Usb.{buf_size}
use libraspike_art.Link.State.{Link}
use libraspike_art.Link.Process.{zero_status}
use libraspike_art.Link.System.{System}
use libraspike_art.Link.Send.{prot_send_priority}
use libraspike_art.Device.Common.{PbioError, success, invalid_arg, io, no_dev}

-- `read_status_snapshot` for a snapshot that is not NULL.
unfoldable pub read_status_snapshot : Option (List ℕ) → ℤ × List ℕ
read_status_snapshot none = (neg enotconn, zero_status)
read_status_snapshot (some status) = (pos 0, status)

abbrev hub_result : ℤ → PbioError
hub_result result =
    if not (is_neg result)
    then success
    else if result ==ℤ neg einval
    then invalid_arg
    else if result ==ℤ neg enotconn
    then no_dev
    else io

abbrev data_size : Buf → ℕ
data_size (null size) = 0
data_size (bytes payload) = length payload

unfoldable pub send_hub_command : ℕ → Buf → Action System PbioError
unfolding prot_send_priority
send_hub_command command payload =
    if ltb v2_max_payload (data_size payload)
    then pure invalid_arg
    else (prot_send_priority port_none command payload >>= λ result. pure (hub_result result))

-- `NULL, 0`
abbrev pub no_data : Buf
no_data = null (pos 0)

-- A field of the snapshot, or zeros.
abbrev field : ℕ → ℕ → ℤ × List ℕ → List ℕ
field at size (ret, status) = if ret ==ℤ pos 0 then slice at size status else replicate size 0

abbrev is_set : ℕ → ℤ × List ℕ → Bool
is_set at (ret, status) = (ret ==ℤ pos 0) && not (get_u16 (drop at status) == 0)

unfoldable pub battery_get_voltage : Option (List ℕ) → ℕ
unfolding read_status_snapshot get_u16
battery_get_voltage status = get_u16 (field Status.voltage 2 (read_status_snapshot status))

unfoldable pub battery_get_current : Option (List ℕ) → ℕ
unfolding read_status_snapshot get_u16
battery_get_current status = get_u16 (field Status.current 2 (read_status_snapshot status))

abbrev pressed : ℤ × List ℕ → PbioError × Option ℕ
pressed (ret, status) =
    if not (ret ==ℤ pos 0)
    then (no_dev, some 0)
    else (success, some (get_u32 (drop Status.button status)))

-- `false` is a NULL pointer.
unfoldable pub button_is_pressed : Bool → Option (List ℕ) → PbioError × Option ℕ
unfolding read_status_snapshot get_u32
button_is_pressed false status = (invalid_arg, none)
button_is_pressed true status = pressed (read_status_snapshot status)

unfoldable pub display_orientation : ℕ → Action System PbioError
unfolding send_hub_command
display_orientation up = send_hub_command cmd_hub_disp_ori (bytes (up ∷ []))

unfoldable pub display_off : Action System PbioError
unfolding send_hub_command
display_off = send_hub_command cmd_hub_disp_off no_data

unfoldable pub display_pixel : ℕ → ℕ → ℕ → Action System PbioError
unfolding send_hub_command
display_pixel row column brightness =
    send_hub_command cmd_hub_disp_pix (bytes (row ∷ column ∷ brightness ∷ []))

-- `image` is the 25 bytes from the pointer on.
unfoldable pub display_image : Option (List ℕ) → Action System PbioError
unfolding send_hub_command
display_image none = pure invalid_arg
display_image (some image) = send_hub_command cmd_hub_disp_img (bytes (slice 0 25 image))

-- `num` and `c` are the byte of the `int8_t` and of the `char`.
unfoldable pub display_number : ℕ → Action System PbioError
unfolding send_hub_command
display_number num = send_hub_command cmd_hub_disp_num (bytes (num ∷ []))

unfoldable pub display_char : ℕ → Action System PbioError
unfolding send_hub_command
display_char c = send_hub_command cmd_hub_disp_chr (bytes (c ∷ []))

-- What `hub_display_text` and `hub_display_text_scroll` do after `prefix` was written.
unfoldable pub send_text : ℕ → List ℕ → List ℕ → Action System PbioError
unfolding send_hub_command
send_text command prefix text =
    if ltb (v2_max_payload - length prefix - 1) (length text)
    then pure invalid_arg
    else send_hub_command command (bytes (prefix ++ (text ++ (0 ∷ []))))

unfoldable pub display_text : Option (List ℕ) → ℕ → ℕ → Action System PbioError
unfolding send_text put_u32
display_text none on off = pure invalid_arg
display_text (some text) on off = send_text cmd_hub_disp_txt (put_u32 on ++ put_u32 off) text

unfoldable pub display_text_scroll : Option (List ℕ) → ℕ → Action System PbioError
unfolding send_text put_u32
display_text_scroll none delay = pure invalid_arg
display_text_scroll (some text) delay = send_text cmd_hub_disp_txt_scr (put_u32 delay) text

-- `hub_imu_get_acceleration` and `hub_imu_get_angular_velocity`, for a pointer that is not NULL.
unfoldable pub imu_get_acceleration : Option (List ℕ) → List ℕ
unfolding read_status_snapshot
imu_get_acceleration status = field Status.acceleration 12 (read_status_snapshot status)

unfoldable pub imu_get_angular_velocity : Option (List ℕ) → List ℕ
unfolding read_status_snapshot
imu_get_angular_velocity status = field Status.angular_velocity 12 (read_status_snapshot status)

unfoldable pub imu_is_ready : Option (List ℕ) → Bool
unfolding read_status_snapshot get_u16
imu_is_ready status = is_set Status.is_ready (read_status_snapshot status)

unfoldable pub imu_is_stationary : Option (List ℕ) → Bool
unfolding read_status_snapshot get_u16
imu_is_stationary status = is_set Status.is_stationary (read_status_snapshot status)

unfoldable pub imu_get_heading : Option (List ℕ) → List ℕ
unfolding read_status_snapshot
imu_get_heading status = field Status.heading 4 (read_status_snapshot status)

unfoldable pub imu_set_tilt : List ℕ → Action System (Unit {0})
unfolding send_hub_command
imu_set_tilt angle = send_hub_command cmd_hub_imu_set_tlt (bytes (slice 0 4 angle)) >>= λ _. pure tt

unfoldable pub imu_reset_heading : Action System (Unit {0})
unfolding send_hub_command
imu_reset_heading = send_hub_command cmd_hub_imu_rst_hdg no_data >>= λ _. pure tt
