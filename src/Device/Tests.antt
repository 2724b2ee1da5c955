-- ===== src/Device/Tests.antt =====
-- A motor on port A is claimed, and a motor on port C is read.
use libraspike_art.Base.{
  ℕ, ◌≡◌, refl, [], ◌∷◌, set, List, ◌⊎◌, inr, pos, Option, some, slice, Outcome, done, blocked,
  fault, arith,
}
use libraspike_art.Wire.Layout.Drive
use libraspike_art.Wire.Word.{get_u32}
use libraspike_art.Wire.Command.{cmd_ack, cmd_col_ref, type_motor}
use libraspike_art.Com.Usb.{com_send, usb_send, com_flush, usb_flush, flush_buffer_locked}
use libraspike_art.Com.Fd.{write_all_fd, write_loop, write_round, write_fd, wait_fd}
use libraspike_art.Com.Tests.{moves}
use libraspike_art.Link.State.{stats_increment}
use libraspike_art.Link.Ports.{next_sequence, is_valid_port, get_device, no_request, no_device}
use libraspike_art.Link.Process.{
  zero_status, process_ack, process_command, dispatch, store_drive_telemetry,
}
use libraspike_art.Link.System.{System, Command, handles, run_other, run_others, yield}
use libraspike_art.Link.Send.{prot_send, prot_send_priority, v2_frame, send_v2_frame, send_frame}
use libraspike_art.Link.Request.{
  begin_request, wait_for_ack, attempt_loop, finish_request, request_at, request,
}
use libraspike_art.Link.Tests.{session, on_line}
use libraspike_art.Link.Tests.Waits.{telemetry, telemetry-Reports}
use libraspike_art.Device.Common.{
  PbioError, delayed_sensor, zero_value, get_device_common, claim_device, to_int32,
}
use libraspike_art.Device.Common.Delayed.{Shown, delayed_sensor-Shown}
use libraspike_art.Link.Api.{port_com_change_if_needed, wait_port_cmd_change, wait_port_loop}
use libraspike_art.Wire.Layout.Status
use libraspike_art.Device.Common.Claims.{get_device_common-Claimed}
use libraspike_art.Device.Motor.{motor_get_count, motor_get_speed, motor_set_power}
use libraspike_art.Device.Motor.Power.{Powered, motor_set_power-Powered}
use libraspike_art.Device.Motor.Telemetry.{motor_get_count-store_drive_telemetry}

abbrev configured_ack : Command
configured_ack = record {
  port = 0;
  cmd = cmd_ack;
  flags = 0;
  sequence = 6;
  session = 9;
  payload = 96 ∷ 0 ∷ 0 ∷ 0 ∷ 1 ∷ 0 ∷ 0 ∷ 0 ∷ [];
}

abbrev unclaimed : System
unclaimed = on_line (moves 64 ∷ []) [] [] (
    record { others = []; outcome = 0 }
    ∷ record { others = handles configured_ack ∷ []; outcome = 0 }
    ∷ [])

abbrev claimed : Outcome System (Option ℕ) → System
claimed (done i s) = s
claimed blocked = unclaimed
claimed fault = unclaimed

get_device_common-Claimed_example :
    ((claimed (get_device_common type_motor b'A' unclaimed)).link.ports 0).device.device_type
    ≡ type_motor
unfolding get_device_common claim_device request request_at next_sequence begin_request attempt_loop
    yield run_others run_other process_command dispatch process_ack get_device is_valid_port
    send_frame send_v2_frame v2_frame com_send usb_send com_flush usb_flush flush_buffer_locked
    write_all_fd write_loop write_round write_fd wait_fd wait_for_ack finish_request stats_increment
    get_u32
get_device_common-Claimed_example =
    get_device_common-Claimed type_motor b'A' 0 unclaimed
      (claimed (get_device_common type_motor b'A' unclaimed)) refl

abbrev reading : System
reading = record (on_line [] [] [] []) {
  link = record session {
    status = some (store_drive_telemetry telemetry zero_status);
    ports = λ i. record no_request { device = record no_device { port_id = 2; device_type = 3 } };
  };
}

motor_get_count-store_drive_telemetry_example :
    (motor_get_count (some 2) reading ≡ to_int32 (slice (Drive.motor_count_deg 0) 4 telemetry))
    × (motor_get_speed (some 2) reading ≡ to_int32 (slice (Drive.motor_speed_deg_s 0) 4 telemetry))
motor_get_count-store_drive_telemetry_example =
    motor_get_count-store_drive_telemetry telemetry zero_status 0 2 reading refl (omega arith)
      telemetry-Reports refl refl

-- The power 150 is cut off at 100.
abbrev driving : System
driving = record reading { line = (on_line (moves 64 ∷ []) [] [] []).line }

abbrev driven : Outcome System PbioError → System
driven (done ret s) = s
driven blocked = driving
driven fault = driving

motor_set_power-Powered_example :
    Powered 2 (pos 150) driving (driven (motor_set_power (some 2) (pos 150) driving))
unfolding motor_set_power prot_send send_frame send_v2_frame is_valid_port v2_frame com_send
    usb_send write_all_fd write_loop write_round write_fd wait_fd stats_increment next_sequence
motor_set_power-Powered_example =
    motor_set_power-Powered 2 (pos 150) driving
      (driven (motor_set_power (some 2) (pos 150) driving)) (inr refl) refl

-- The color sensor at port B sends something else; while the call waits, a status comes that says that
-- the port sends the reflection, 5.
abbrev reflection_status : Command
reflection_status = record {
  port = 255;
  cmd = 1;
  flags = 0;
  sequence = 0;
  session = 9;
  payload = set (set zero_status (Status.cmd 1) cmd_col_ref) (Status.port_data 1) 5;
}

abbrev seeing : System
seeing =
    record (on_line (moves 64 ∷ []) [] []
      (record { others = handles reflection_status ∷ []; outcome = 0 } ∷ [])) {
        link = record session {
          ports =
              λ i. record no_request { device = record no_device { port_id = 1; device_type = 2 } };
        };
      }

abbrev seen : Outcome System (List ℕ) → System
seen (done p s) = s
seen blocked = seeing
seen fault = seeing

delayed_sensor-Shown_example :
    ((5 ∷ 0 ∷ 0 ∷ 0 ∷ []) ≡ zero_value 4)
    ⊎ Shown 1 cmd_col_ref 4
        (5 ∷ 0 ∷ 0 ∷ 0 ∷ [])
        (seen (delayed_sensor (some 1) cmd_col_ref 4 seeing))
unfolding delayed_sensor port_com_change_if_needed wait_port_cmd_change wait_port_loop
    prot_send_priority next_sequence send_frame send_v2_frame v2_frame is_valid_port com_send
    usb_send com_flush usb_flush flush_buffer_locked write_all_fd write_loop write_round write_fd
    wait_fd run_others run_other process_command dispatch stats_increment
delayed_sensor-Shown_example =
    delayed_sensor-Shown 1 cmd_col_ref 4 seeing
      (seen (delayed_sensor (some 1) cmd_col_ref 4 seeing)) (5 ∷ 0 ∷ 0 ∷ 0 ∷ []) refl
