-- ===== src/Device/Motor.antt =====
-- src/raspike_motor.c.
pub mod Telemetry
pub mod Power
pub mod Reset
use libraspike_art.Base.{
  ℕ, ◌+◌, ◌||◌, List, [], ◌∷◌, ◌++◌, Option, none, some, Bool, true, false, ltb, ◌==◌,
  if◌then◌else◌, splice, replicate, ℤ, pos, negsuc, neg, is_neg, ◌==ℤ◌, unsigned32, Action, done,
  pure, ◌>>=◌, ◌>>◌,
}
use libraspike_art.Base.Errno.{einval, enodev, enotconn, etimedout}
use libraspike_art.Wire.Word.{put_u32}
use libraspike_art.Wire.Layout.Status
use libraspike_art.Wire.Layout.Device as Field
use libraspike_art.Wire.Command.{
  type_motor, cmd_mot_stu, cmd_mot_rst, cmd_mot_spd, cmd_mot_pow, cmd_mot_stp, cmd_mot_stp_brk,
  cmd_mot_stp_hld, cmd_mot_set_dty, cmd_mot_rst_dty,
}
use libraspike_art.Com.Fd.{Buf, null, bytes}
use libraspike_art.Link.State.{Link}
use libraspike_art.Link.System.{System, update_link}
use libraspike_art.Link.Send.{prot_send}
use libraspike_art.Link.Request.{request}
use libraspike_art.Device.Common.{
  PbioError, success, invalid_arg, io, no_dev, timedout, get_device_common, get_sensor, set_device,
  to_int32, to_int16, to_bool,
}

unfoldable pub request_result_to_pbio : ℤ → PbioError
request_result_to_pbio result =
    if result ==ℤ pos 1 || result ==ℤ pos 0
    then success
    else if result ==ℤ neg etimedout
    then timedout
    else if result ==ℤ neg einval
    then invalid_arg
    else if result ==ℤ neg enodev || result ==ℤ neg enotconn
    then no_dev
    else io

unfoldable pub motor_get_device : ℕ → Action System (Option ℕ)
unfolding get_device_common
motor_get_device = get_device_common type_motor

abbrev port_of : System → ℕ → ℕ
port_of s i = (s.link.ports i).device.port_id

-- A request on the port of a motor that is not null, and its result as a `pbio_error_t`.
unfoldable pub motor_request : Option ℕ → ℕ → Buf → Action System PbioError
unfolding request request_result_to_pbio
motor_request none cmd payload s = done invalid_arg s
motor_request (some i) cmd payload s =
    (request (port_of s i) cmd payload >>= λ result. pure (request_result_to_pbio result)) s

-- The bytes of an `int`, and of a `bool`.
abbrev pub int_bytes : ℤ → List ℕ
int_bytes n = put_u32 (unsigned32 n)

abbrev bool_byte : Bool → ℕ
bool_byte true = 1
bool_byte false = 0

unfoldable pub motor_setup : Option ℕ → ℕ → Bool → Action System PbioError
unfolding motor_request put_u32
motor_setup motor positive_direction reset_count =
    motor_request motor cmd_mot_stu
      (bytes (put_u32 positive_direction ++ (bool_byte reset_count ∷ [])))

abbrev pub clear_count : ℕ → Link → Link
clear_count port l = record l { status = cleared l.status }
  where
    cleared : Option (List ℕ) → Option (List ℕ)
    cleared none = none
    cleared (some status) =
        some (splice (Status.port_data port + Field.mot_count) (replicate 4 0) status)

unfoldable pub motor_reset_count : Option ℕ → Action System PbioError
unfolding request request_result_to_pbio
motor_reset_count none s = done invalid_arg s
motor_reset_count (some i) s =
    (do
      result ← request (port_of s i) cmd_mot_rst (null (pos 0))
      if result ==ℤ pos 1
          then (do
            update_link (λ l. clear_count (l.ports i).device.port_id l)
            pure (request_result_to_pbio result))
          else pure (request_result_to_pbio result))
      s

unfoldable pub motor_get_count : Option ℕ → System → ℤ
unfolding get_sensor
motor_get_count motor s = to_int32 (get_sensor motor Field.mot_count 4 s)

unfoldable pub motor_get_speed : Option ℕ → System → ℤ
unfolding get_sensor
motor_get_speed motor s = to_int32 (get_sensor motor Field.mot_speed 4 s)

abbrev sent_result : ℤ → PbioError
sent_result sent = if is_neg sent then io else success

unfoldable pub motor_set_speed : Option ℕ → ℤ → Action System PbioError
unfolding prot_send
motor_set_speed none speed s = done invalid_arg s
motor_set_speed (some i) speed s =
    let d = record (s.link.ports i).device { cmd = cmd_mot_spd } in
    (do
      update_link (set_device i d)
      sent ← prot_send d.port_id cmd_mot_spd (bytes (int_bytes speed))
      pure (sent_result sent))
      s

unfoldable pub motor_get_power : Option ℕ → System → ℤ
unfolding get_sensor
motor_get_power none s = pos 0
motor_get_power (some i) s =
    if (s.link.ports i).device.cmd == cmd_mot_pow
    then (s.link.ports i).device.power
    else to_int16 (get_sensor (some i) Field.mot_power 2 s)

-- The power is cut off at -100 and 100.
abbrev pub clamp_power : ℤ → ℤ
clamp_power (pos n) = if ltb 100 n then pos 100 else pos n
clamp_power (negsuc n) = if ltb 99 n then neg 100 else negsuc n

unfoldable pub motor_set_power : Option ℕ → ℤ → Action System PbioError
unfolding prot_send
motor_set_power none power s = done invalid_arg s
motor_set_power (some i) power s =
    let d = record (s.link.ports i).device { cmd = cmd_mot_pow; power = clamp_power power } in
    (do
      update_link (set_device i d)
      sent ← prot_send d.port_id cmd_mot_pow (bytes (int_bytes (clamp_power power)))
      pure (sent_result sent))
      s

unfoldable pub motor_stop : Option ℕ → Action System PbioError
unfolding motor_request
motor_stop motor = motor_request motor cmd_mot_stp (null (pos 0))

unfoldable pub motor_brake : Option ℕ → Action System PbioError
unfolding motor_request
motor_brake motor = motor_request motor cmd_mot_stp_brk (null (pos 0))

unfoldable pub motor_hold : Option ℕ → Action System PbioError
unfolding motor_request
motor_hold motor = motor_request motor cmd_mot_stp_hld (null (pos 0))

unfoldable pub motor_is_stalled : Option ℕ → System → Bool
unfolding get_sensor
motor_is_stalled motor s = to_bool (get_sensor motor Field.mot_is_stalled 1 s)

unfoldable pub motor_set_duty_limit : Option ℕ → ℤ → Action System ℤ
unfolding request
motor_set_duty_limit none duty_limit s = done (neg einval) s
motor_set_duty_limit (some i) duty_limit s =
    request (port_of s i) cmd_mot_set_dty (bytes (int_bytes duty_limit)) s

unfoldable pub motor_restore_duty_limit : Option ℕ → ℤ → Action System (Unit {0})
unfolding request
motor_restore_duty_limit none old_value s = done tt s
motor_restore_duty_limit (some i) old_value s =
    (request (port_of s i) cmd_mot_rst_dty (bytes (int_bytes old_value)) >>= λ _. pure tt) s
