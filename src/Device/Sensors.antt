-- ===== src/Device/Sensors.antt =====
-- src/raspike_color.c, src/raspike_forcesensor.c and src/raspike_ultrasonicsensor.c. A struct or a
-- float that a sensor gives is the list of its bytes.
use libraspike_art.Base.{
  ℕ, ◌||◌, List, ◌++◌, Option, none, some, Bool, if◌then◌else◌, ℤ, pos, neg, is_neg, ◌==ℤ◌, Action,
  done, pure, ◌>>=◌,
}
use libraspike_art.Base.Errno.{einval, etimedout}
use libraspike_art.Wire.Word.{put_u32}
use libraspike_art.Wire.Layout.Device as Field
use libraspike_art.Wire.Command.{
  type_color, type_force, type_us, cmd_col_rgb, cmd_col_col, cmd_col_col_sur_off, cmd_col_hsv,
  cmd_col_hsv_sur_off, cmd_col_ref, cmd_col_amb, cmd_col_light_set, cmd_col_light_on,
  cmd_col_light_off, cmd_us_lgt_set, cmd_us_lgt_on, cmd_us_lgt_off,
}
use libraspike_art.Com.Fd.{Buf, null, bytes}
use libraspike_art.Link.System.{System}
use libraspike_art.Link.Send.{prot_send_priority}
use libraspike_art.Link.Request.{request}
use libraspike_art.Device.Common.{
  PbioError, success, invalid_arg, io, timedout, get_device_common, get_sensor, delayed_sensor,
  to_int32, to_bool,
}
use libraspike_art.Device.Motor.{int_bytes}

unfoldable pub color_request_result : ℤ → PbioError
color_request_result result =
    if result ==ℤ pos 1 || result ==ℤ pos 0
    then success
    else if result ==ℤ neg etimedout
    then timedout
    else if result ==ℤ neg einval
    then invalid_arg
    else io

abbrev port_of : System → ℕ → ℕ
port_of s i = (s.link.ports i).device.port_id

-- `raspike_prot_send_priority` to the port of a sensor that is not null.
unfoldable pub sensor_send : Option ℕ → ℕ → Buf → Action System PbioError
unfolding prot_send_priority
sensor_send none cmd payload s = done invalid_arg s
sensor_send (some i) cmd payload s =
    (prot_send_priority (port_of s i) cmd payload >>= λ sent.
    pure (if is_neg sent then io else success))
      s

unfoldable pub color_sensor_get_device : ℕ → Action System (Option ℕ)
unfolding get_device_common
color_sensor_get_device = get_device_common type_color

unfoldable pub color_sensor_color : Option ℕ → Bool → Action System (List ℕ)
unfolding delayed_sensor
color_sensor_color pdev surface =
    delayed_sensor pdev (if surface then cmd_col_col else cmd_col_col_sur_off) 4

unfoldable pub color_sensor_rgb : Option ℕ → Action System (List ℕ)
unfolding delayed_sensor
color_sensor_rgb pdev = delayed_sensor pdev cmd_col_rgb 6

unfoldable pub color_sensor_hsv : Option ℕ → Bool → Action System (List ℕ)
unfolding delayed_sensor
color_sensor_hsv pdev surface =
    delayed_sensor pdev (if surface then cmd_col_hsv else cmd_col_hsv_sur_off) 4

unfoldable pub color_sensor_reflection : Option ℕ → Action System ℤ
unfolding delayed_sensor
color_sensor_reflection pdev = delayed_sensor pdev cmd_col_ref 4 >>= λ p. pure (to_int32 p)

unfoldable pub color_sensor_ambient : Option ℕ → Action System ℤ
unfolding delayed_sensor
color_sensor_ambient pdev = delayed_sensor pdev cmd_col_amb 4 >>= λ p. pure (to_int32 p)

unfoldable pub color_sensor_light_set : Option ℕ → ℤ → ℤ → ℤ → Action System PbioError
unfolding request color_request_result put_u32
color_sensor_light_set none bv1 bv2 bv3 s = done invalid_arg s
color_sensor_light_set (some i) bv1 bv2 bv3 s =
    (request (port_of s i) cmd_col_light_set
          (bytes (int_bytes bv1 ++ (int_bytes bv2 ++ int_bytes bv3)))
        >>= λ result. pure (color_request_result result))
      s

unfoldable pub color_sensor_light_on : Option ℕ → Action System PbioError
unfolding sensor_send
color_sensor_light_on pdev = sensor_send pdev cmd_col_light_on (null (pos 0))

unfoldable pub color_sensor_light_off : Option ℕ → Action System PbioError
unfolding sensor_send
color_sensor_light_off pdev = sensor_send pdev cmd_col_light_off (null (pos 0))

unfoldable pub force_sensor_get_device : ℕ → Action System (Option ℕ)
unfolding get_device_common
force_sensor_get_device = get_device_common type_force

unfoldable pub force_sensor_force : Option ℕ → System → List ℕ
unfolding get_sensor
force_sensor_force pdev = get_sensor pdev Field.frc_force 4

unfoldable pub force_sensor_distance : Option ℕ → System → List ℕ
unfolding get_sensor
force_sensor_distance pdev = get_sensor pdev Field.frc_distance 4

-- `>=` of two floats is the machine's.
unfoldable pub force_sensor_pressed : (List ℕ → List ℕ → Bool) → Option ℕ → List ℕ → System → Bool
unfolding force_sensor_force
force_sensor_pressed float_ge pdev force s = float_ge (force_sensor_force pdev s) force

unfoldable pub force_sensor_touched : Option ℕ → System → Bool
unfolding get_sensor
force_sensor_touched pdev s = to_bool (get_sensor pdev Field.frc_touched 1 s)

unfoldable pub ultrasonic_sensor_get_device : ℕ → Action System (Option ℕ)
unfolding get_device_common
ultrasonic_sensor_get_device = get_device_common type_us

unfoldable pub ultrasonic_sensor_distance : Option ℕ → System → ℤ
unfolding get_sensor
ultrasonic_sensor_distance pdev s = to_int32 (get_sensor pdev Field.us_distance 4 s)

unfoldable pub ultrasonic_sensor_presence : Option ℕ → System → Bool
unfolding get_sensor
ultrasonic_sensor_presence pdev s = to_bool (get_sensor pdev Field.us_presence 1 s)

unfoldable pub ultrasonic_sensor_light_set : Option ℕ → ℤ → ℤ → ℤ → ℤ → Action System PbioError
unfolding sensor_send put_u32
ultrasonic_sensor_light_set pdev bv1 bv2 bv3 bv4 =
    sensor_send pdev cmd_us_lgt_set
      (bytes (int_bytes bv1 ++ (int_bytes bv2 ++ (int_bytes bv3 ++ int_bytes bv4))))

unfoldable pub ultrasonic_sensor_light_on : Option ℕ → Action System PbioError
unfolding sensor_send
ultrasonic_sensor_light_on pdev = sensor_send pdev cmd_us_lgt_on (null (pos 0))

unfoldable pub ultrasonic_sensor_light_off : Option ℕ → Action System PbioError
unfolding sensor_send
ultrasonic_sensor_light_off pdev = sensor_send pdev cmd_us_lgt_off (null (pos 0))
