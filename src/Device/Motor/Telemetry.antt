-- ===== src/Device/Motor/Telemetry.antt =====
-- What the getters of src/raspike_motor.c read after a telemetry frame.
use libraspike_art.Base.{ℕ, ◌<◌, ◌≡◌, refl, ap, ◌∙◌, ltb-true, List, some, length, slice}
use libraspike_art.Wire.Word.{byte}
use libraspike_art.Wire.Layout.Status
use libraspike_art.Wire.Layout.Drive
use libraspike_art.Link.State.{device_port_count}
use libraspike_art.Link.Ports.{is_valid_port}
use libraspike_art.Link.Process.{store_drive_telemetry}
use libraspike_art.Link.Process.Telemetry.Whole.{Reports, store_drive_telemetry-Stored}
use libraspike_art.Link.System.{System}
use libraspike_art.Device.Common.{get_sensor, read_port, to_int32}
use libraspike_art.Device.Motor.{motor_get_count, motor_get_speed}

get_sensor-some :
    (i port index size : ℕ) (status : List ℕ) (s : System)
    → (s.link.ports i).device.port_id ≡ port
    → port < device_port_count
    → s.link.status ≡ some status
    → get_sensor (some i) index size s ≡ read_port port index size status
unfolding get_sensor is_valid_port
get_sensor-some i port index size status s on_port valid saved =
    rw (on_port, ltb-true port 6 valid, saved) refl

-- After a telemetry frame that reports a motor on one of the ports A to F, and on that port neither the
-- other motor nor a color, was stored in a status of its size, `pup_motor_get_count` and
-- `pup_motor_get_speed` on a device of that port give the count and the speed of the frame, as signed
-- 32-bit numbers.
pub motor_get_count-store_drive_telemetry :
    (telemetry status : List ℕ) (slot i : ℕ) (s : System)
    → length status ≡ Status.size
    → slot < 2
    → Reports telemetry slot
    → (s.link.ports i).device.port_id ≡ byte telemetry (Drive.motor_port slot)
    → s.link.status ≡ some (store_drive_telemetry telemetry status)
    → (motor_get_count (some i) s ≡ to_int32 (slice (Drive.motor_count_deg slot) 4 telemetry))
      × (motor_get_speed (some i) s ≡ to_int32 (slice (Drive.motor_speed_deg_s slot) 4 telemetry))
unfolding motor_get_count motor_get_speed
motor_get_count-store_drive_telemetry telemetry status slot i s sized is_slot reports on_port
      saved =
    let stored = store_drive_telemetry-Stored telemetry status sized slot is_slot reports in
    let after = store_drive_telemetry telemetry status in
    let port = byte telemetry (Drive.motor_port slot) in
    (
      ap (λ p. to_int32 p)
          (get_sensor-some i port 0 4 after s on_port reports.on_port saved ∙ stored.count),
      ap (λ p. to_int32 p)
          (get_sensor-some i port 4 4 after s on_port reports.on_port saved ∙ stored.speed),
    )
