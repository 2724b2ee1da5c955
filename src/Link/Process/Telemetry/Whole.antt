-- ===== src/Link/Process/Telemetry/Whole.antt =====
-- A whole telemetry frame: both motors and the color sensor, in the order in which `process_command`
-- of src/raspike_protocol.c stores them.
use libraspike_art.Base.{
  ℕ, zero, suc, ◌+◌, ◌<◌, ◌≤◌, ◌^◌, bit_and, ◌≡◌, ◌≢◌, subst, ◌∙◌, List, false, ◌==◌, length, slice,
  arith,
}
use libraspike_art.Wire.Word.{byte}
use libraspike_art.Wire.Layout.Status
use libraspike_art.Wire.Layout.Drive
use libraspike_art.Wire.Layout.Device
use libraspike_art.Link.State.{device_port_count}
use libraspike_art.Link.Process.{store_motor_slot, store_color, store_drive_telemetry}
use libraspike_art.Link.Process.Sized.{store_motor_slot-Sized}
use libraspike_art.Link.Process.Telemetry.{
  Stored, store_motor_slot-Stored, part-store_color, part-store_motor_slot,
}

-- The telemetry has a motor at `slot`, on a port that the rest of the telemetry does not speak of.
pub record Reports (telemetry : List ℕ) (slot : ℕ) : Type 0 where
  pub whole : length telemetry ≡ Drive.size
  pub valid : (bit_and (byte telemetry Drive.flags) (2 ^ slot) == 0) ≡ false
  pub on_port : byte telemetry (Drive.motor_port slot) < device_port_count
  pub alone :
      (other : ℕ)
      → other < 2
      → other ≢ slot
      → byte telemetry (Drive.motor_port slot) ≢ byte telemetry (Drive.motor_port other)
  pub no_color : byte telemetry (Drive.motor_port slot) ≢ byte telemetry Drive.color_port

-- The fields survive what leaves the entry of the port alone.
Stored-kept :
    (telemetry status status' : List ℕ) (slot : ℕ)
    → ((k n : ℕ)
        → k + n ≤ 16
        → let port = byte telemetry (Drive.motor_port slot) in
          slice (Status.ports port + k) n status' ≡ slice (Status.ports port + k) n status)
    → Stored telemetry status slot
    → Stored telemetry status' slot
Stored-kept telemetry status status' slot kept h = record {
  count = moved Device.mot_count 4 (omega arith) ∙ h.count;
  speed = moved Device.mot_speed 4 (omega arith) ∙ h.speed;
  power = moved Device.mot_power 2 (omega arith) ∙ h.power;
}
  where
    port : ℕ
    port = byte telemetry (Drive.motor_port slot)

    moved :
        (k n : ℕ)
        → 4 + k + n ≤ 16
        → slice (Status.port_data port + k) n status' ≡ slice (Status.port_data port + k) n status
    moved k n h = subst (λ i. slice i n status' ≡ slice i n status) (omega arith) (kept (4 + k) n h)

module _ (telemetry status : List ℕ) (sized : length status ≡ Status.size) where
  after_color :
      (slot : ℕ) (stored : List ℕ)
      → Reports telemetry slot
      → Stored telemetry stored slot
      → Stored telemetry (store_color telemetry stored) slot
  after_color slot stored h =
      Stored-kept telemetry stored (store_color telemetry stored) slot (λ k n inside.
        part-store_color (byte telemetry (Drive.motor_port slot)) k n inside telemetry stored
          h.no_color)

  -- A telemetry frame that reports a motor leaves the count, the speed and the power that it reports
  -- in the entry of the motor's port, whatever the other motor and the color sensor on other ports
  -- report.
  pub store_drive_telemetry-Stored :
      (slot : ℕ)
      → slot < 2
      → Reports telemetry slot
      → Stored telemetry (store_drive_telemetry telemetry status) slot
  unfolding store_drive_telemetry
  store_drive_telemetry-Stored zero h reports =
      after_color zero (store_motor_slot telemetry 1 (store_motor_slot telemetry 0 status)) reports
        (Stored-kept telemetry (store_motor_slot telemetry 0 status)
          (store_motor_slot telemetry 1 (store_motor_slot telemetry 0 status)) zero
          (λ k n inside.
            part-store_motor_slot (byte telemetry (Drive.motor_port 0)) k n inside telemetry
              (store_motor_slot telemetry 0 status) 1
              (reports.alone 1 (omega arith) (λ e. absurd (omega arith))))
          (store_motor_slot-Stored telemetry status zero reports.whole sized (omega arith)
            reports.valid reports.on_port))
  store_drive_telemetry-Stored (suc zero) h reports =
      after_color 1 (store_motor_slot telemetry 1 (store_motor_slot telemetry 0 status)) reports (
        store_motor_slot-Stored telemetry (store_motor_slot telemetry 0 status) 1 reports.whole
          (store_motor_slot-Sized telemetry status 0 sized) (omega arith) reports.valid
          reports.on_port)
  store_drive_telemetry-Stored (suc (suc n)) h reports = absurd (omega arith)
