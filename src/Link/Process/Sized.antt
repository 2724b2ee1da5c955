-- ===== src/Link/Process/Sized.antt =====
-- The size of the status under the stores of src/raspike_protocol.c, lines 622 to 650.
use libraspike_art.Base.{
  ℕ, ◌≡◌, ◌∙◌, List, ◌==◌, Bool-cases, inl, inr, bit_and, ◌^◌, ltb, leb, length, drop, slice,
  splice, set, ◌+◌, length-set, length-splice,
}
use libraspike_art.Wire.Word.{byte, get_u16}
use libraspike_art.Wire.Layout.{drive_color_valid}
use libraspike_art.Wire.Layout.Status
use libraspike_art.Wire.Layout.Drive
use libraspike_art.Wire.Layout.Device
use libraspike_art.Link.State.{device_port_count}
use libraspike_art.Link.Process.{
  store_motor_slot, store_color, store_drive_telemetry, copy_field, widen,
}

abbrev pub Sized : List ℕ → Type 0
Sized p = length p ≡ Status.size

pub store_motor_slot-Sized :
    (telemetry status : List ℕ) (slot : ℕ)
    → Sized status
    → Sized (store_motor_slot telemetry slot status)
unfolding store_motor_slot
store_motor_slot-Sized telemetry status slot h =
    elim (Bool-cases (bit_and (byte telemetry Drive.flags) (2 ^ slot) == 0)) [
      | inl e ↦ rw e h
      | inr e ↦ elim (Bool-cases (leb device_port_count (byte telemetry (Drive.motor_port slot)))) [
        | inl e' ↦ rw (e, e') h
        | inr e' ↦
            rw (e, e')
              (copied (at + Device.mot_power) (slice (Drive.motor_power slot) 2 telemetry)
                with_speed
                (copied (at + Device.mot_speed) (slice (Drive.motor_speed_deg_s slot) 4 telemetry)
                  with_count
                  (copied (at + Device.mot_count) (slice (Drive.motor_count_deg slot) 4 telemetry)
                    with_port (length-set status (Status.port port) port ∙ h))))
      ]
    ]
  where
    copied : (i : ℕ) (ys xs : List ℕ) → Sized xs → Sized (splice i ys xs)
    copied i ys xs sized = length-splice i ys xs ∙ sized

    port : ℕ
    port = byte telemetry (Drive.motor_port slot)

    at : ℕ
    at = Status.port_data port

    with_port : List ℕ
    with_port = set status (Status.port port) port

    with_count : List ℕ
    with_count =
        copy_field (at + Device.mot_count) (Drive.motor_count_deg slot) 4 telemetry with_port

    with_speed : List ℕ
    with_speed =
        copy_field (at + Device.mot_speed) (Drive.motor_speed_deg_s slot) 4 telemetry with_count

store_color-Sized :
    (telemetry status : List ℕ) → Sized status → Sized (store_color telemetry status)
unfolding store_color
store_color-Sized telemetry status h =
    elim (Bool-cases (bit_and (byte telemetry Drive.flags) drive_color_valid == 0)) [
      | inl e ↦ rw e h
      | inr e ↦ elim (Bool-cases (ltb (byte telemetry Drive.color_port) device_port_count)) [
        | inl e' ↦
            rw (e, e')
              (length-splice (Status.port_data port)
                  (widen (get_u16 (drop Drive.reflection telemetry)))
                  (set status (Status.port port) port)
                ∙ length-set status (Status.port port) port
                ∙ h)
        | inr e' ↦ rw (e, e') h
      ]
    ]
  where
    port : ℕ
    port = byte telemetry Drive.color_port

pub store_drive_telemetry-Sized :
    (telemetry status : List ℕ) → Sized status → Sized (store_drive_telemetry telemetry status)
unfolding store_drive_telemetry
store_drive_telemetry-Sized telemetry status h =
    store_color-Sized telemetry (store_motor_slot telemetry 1 (store_motor_slot telemetry 0 status))
      (store_motor_slot-Sized telemetry (store_motor_slot telemetry 0 status) 1
        (store_motor_slot-Sized telemetry status 0 h))
