-- ===== src/Link/Process/Telemetry.antt =====
-- What a telemetry frame writes into the status: the case `RP_CMD_ID_DRIVE_TELEMETRY` of
-- `process_command` in src/raspike_protocol.c.
pub mod Whole
use libraspike_art.Base.{
  ℕ, suc, ◌+◌, ◌-◌, ◌*◌, ◌^◌, ◌≤◌, ◌<◌, min, bit_and, ◌≡◌, ◌≢◌, ◌⊎◌, inl, inr, refl, sym, ap, subst,
  ◌∙◌, List, Bool, true, false, ltb, leb, ltb_iff, ◌==◌, Bool-cases, if◌then◌else◌, leb-false,
  length, length-take, length-drop, length-set, length-splice, slice, splice, set, take, drop,
  arith,
}
use libraspike_art.Base.Lists.Slices.{slice-set_other, slice-splice_other, slice-splice}
use libraspike_art.Wire.Word.{byte, get_u16, put_u32}
use libraspike_art.Wire.Layout.{drive_color_valid}
use libraspike_art.Wire.Layout.Status
use libraspike_art.Wire.Layout.Drive
use libraspike_art.Wire.Layout.Device
use libraspike_art.Link.State.{device_port_count}
use libraspike_art.Link.Process.{
  store_motor_slot, store_color, store_drive_telemetry, widen, copy_field,
}

-- Two parts of the entries of different ports do not meet.
apart :
    (p q k n : ℕ)
    → q ≢ p
    → k + n ≤ 16
    → (Status.ports p + 16 ≤ Status.ports q + k) ⊎ (Status.ports q + k + n ≤ Status.ports p)
apart p q k n ne h = elim (Bool-cases (ltb p q)) [
  | inl e ↦ inl (ground arith)
  | inr e ↦ inr (ground arith)
]

length-slice : (i n : ℕ) (xs : List ℕ) → length (slice i n xs) ≤ n
length-slice i n xs = omega (arith, length-take n (drop i xs))

length-slice_whole : (i n : ℕ) (xs : List ℕ) → i + n ≤ length xs → length (slice i n xs) ≡ n
length-slice_whole i n xs h = omega (arith, length-take n (drop i xs), length-drop i xs)

module _ (q k n : ℕ) (inside : k + n ≤ 16) where
  -- The part of the entry of port `q`.
  abbrev pub part : List ℕ → List ℕ
  part status = slice (Status.ports q + k) n status

  part-splice :
      (p at : ℕ) (ys status : List ℕ)
      → q ≢ p
      → Status.ports p ≤ at
      → at + length ys ≤ Status.ports p + 16
      → part (splice at ys status) ≡ part status
  part-splice p at ys status ne low high =
      slice-splice_other ys status at (Status.ports q + k) n
        (elim (apart p q k n ne inside) [ inl h ↦ inl (omega arith) | inr h ↦ inr (omega arith) ])

  part-copy :
      (p at from m : ℕ) (telemetry status : List ℕ)
      → q ≢ p
      → Status.ports p ≤ at
      → at + m ≤ Status.ports p + 16
      → part (copy_field at from m telemetry status) ≡ part status
  part-copy p at from m telemetry status ne low high =
      part-splice p at (slice from m telemetry) status ne low
        (omega (arith, length-slice from m telemetry))

  part-set : (p v : ℕ) (status : List ℕ) → q ≢ p → part (set status (Status.port p) v) ≡ part status
  part-set p v status ne =
      slice-set_other status (Status.port p) v (Status.ports q + k) n
        (elim (apart p q k n ne inside) [ inl h ↦ inl (omega arith) | inr h ↦ inr (omega arith) ])

  pub part-store_motor_slot :
      (telemetry status : List ℕ) (slot : ℕ)
      → q ≢ byte telemetry (Drive.motor_port slot)
      → part (store_motor_slot telemetry slot status) ≡ part status
  unfolding store_motor_slot
  part-store_motor_slot telemetry status slot ne =
      elim (Bool-cases (bit_and (byte telemetry Drive.flags) (2 ^ slot) == 0)) [
        | inl e ↦ rw e refl
        | inr e ↦
            elim (Bool-cases (leb device_port_count (byte telemetry (Drive.motor_port slot)))) [
              | inl e' ↦ rw (e, e') refl
              | inr e' ↦
                  rw (e, e')
                    (part-copy port (at + Device.mot_power) (Drive.motor_power slot) 2 telemetry _
                        ne (omega arith) (omega arith)
                      ∙ part-copy port (at + Device.mot_speed) (Drive.motor_speed_deg_s slot) 4
                          telemetry _ ne (omega arith) (omega arith)
                      ∙ part-copy port (at + Device.mot_count) (Drive.motor_count_deg slot) 4
                          telemetry _ ne (omega arith) (omega arith)
                      ∙ part-set port port status ne)
            ]
      ]
    where
      port : ℕ
      port = byte telemetry (Drive.motor_port slot)

      at : ℕ
      at = Status.port_data port

  pub part-store_color :
      (telemetry status : List ℕ)
      → q ≢ byte telemetry Drive.color_port
      → part (store_color telemetry status) ≡ part status
  unfolding store_color
  part-store_color telemetry status ne =
      elim (Bool-cases (bit_and (byte telemetry Drive.flags) drive_color_valid == 0)) [
        | inl e ↦ rw e refl
        | inr e ↦ elim (Bool-cases (ltb (byte telemetry Drive.color_port) device_port_count)) [
          | inl e' ↦
              rw (e, e')
                (part-splice port (Status.port_data port)
                    (widen (get_u16 (drop Drive.reflection telemetry)))
                    (set status (Status.port port) port) ne (omega arith) (omega arith)
                  ∙ part-set port port status ne)
          | inr e' ↦ rw (e, e') refl
        ]
      ]
    where
      port : ℕ
      port = byte telemetry Drive.color_port

copied :
    (at from m : ℕ) (telemetry xs : List ℕ)
    → from + m ≤ length telemetry
    → at + m ≤ length xs
    → slice at m (copy_field at from m telemetry xs) ≡ slice from m telemetry
copied at from m telemetry xs there fits =
    let whole = length-slice_whole from m telemetry there in
    subst (λ k. slice at k (copy_field at from m telemetry xs) ≡ slice from m telemetry) whole
      (slice-splice (slice from m telemetry) xs at (omega (arith, whole)))

copied_before :
    (at from m i n : ℕ) (telemetry xs : List ℕ)
    → i + n ≤ at
    → slice i n (copy_field at from m telemetry xs) ≡ slice i n xs
copied_before at from m i n telemetry xs h =
    slice-splice_other (slice from m telemetry) xs at i n (inr h)

-- The fields of slot `slot` are those of the entry of its port.
pub record Stored (telemetry status : List ℕ) (slot : ℕ) : Type 0 where
  pub count :
      slice (Status.port_data (byte telemetry (Drive.motor_port slot)) + Device.mot_count) 4 status
      ≡ slice (Drive.motor_count_deg slot) 4 telemetry
  pub speed :
      slice (Status.port_data (byte telemetry (Drive.motor_port slot)) + Device.mot_speed) 4 status
      ≡ slice (Drive.motor_speed_deg_s slot) 4 telemetry
  pub power :
      slice (Status.port_data (byte telemetry (Drive.motor_port slot)) + Device.mot_power) 2 status
      ≡ slice (Drive.motor_power slot) 2 telemetry

module _ (telemetry status : List ℕ) (slot : ℕ) (whole : length telemetry ≡ Drive.size)
    (sized : length status ≡ Status.size) (is_slot : slot < 2)
    (valid : (bit_and (byte telemetry Drive.flags) (2 ^ slot) == 0) ≡ false)
    (on_port : byte telemetry (Drive.motor_port slot) < device_port_count) where
  abbrev port : ℕ
  port = byte telemetry (Drive.motor_port slot)

  abbrev at : ℕ
  at = Status.port_data port

  abbrev with_count : List ℕ
  with_count =
      copy_field (at + Device.mot_count) (Drive.motor_count_deg slot) 4 telemetry
        (set status (Status.port port) port)

  abbrev with_speed : List ℕ
  with_speed =
      copy_field (at + Device.mot_speed) (Drive.motor_speed_deg_s slot) 4 telemetry with_count

  abbrev with_power : List ℕ
  with_power = copy_field (at + Device.mot_power) (Drive.motor_power slot) 2 telemetry with_speed

  count-length : length with_count ≡ Status.size
  count-length =
      length-splice (at + Device.mot_count) (slice (Drive.motor_count_deg slot) 4 telemetry)
        (set status (Status.port port) port)
      ∙ length-set status (Status.port port) port
      ∙ sized

  speed-length : length with_speed ≡ Status.size
  speed-length =
      length-splice (at + Device.mot_speed) (slice (Drive.motor_speed_deg_s slot) 4 telemetry)
        with_count
      ∙ count-length

  store_motor_slot_lem : store_motor_slot telemetry slot status ≡ with_power
  unfolding store_motor_slot
  store_motor_slot_lem = rw (valid, leb-false device_port_count port on_port) refl

  pub store_motor_slot-Stored : Stored telemetry (store_motor_slot telemetry slot status) slot
  store_motor_slot-Stored = record {
    count =
        ap (slice (at + Device.mot_count) 4) store_motor_slot_lem
        ∙ copied_before (at + Device.mot_power) (Drive.motor_power slot) 2 (at + Device.mot_count) 4
            telemetry with_speed (omega arith)
        ∙ copied_before (at + Device.mot_speed) (Drive.motor_speed_deg_s slot) 4
            (at + Device.mot_count) 4 telemetry with_count (omega arith)
        ∙ copied (at + Device.mot_count) (Drive.motor_count_deg slot) 4 telemetry
            (set status (Status.port port) port) (omega (arith, whole))
            (omega (arith, sized, length-set status (Status.port port) port));
    speed =
        ap (slice (at + Device.mot_speed) 4) store_motor_slot_lem
        ∙ copied_before (at + Device.mot_power) (Drive.motor_power slot) 2 (at + Device.mot_speed) 4
            telemetry with_speed (omega arith)
        ∙ copied (at + Device.mot_speed) (Drive.motor_speed_deg_s slot) 4 telemetry with_count
            (omega (arith, whole)) (omega (arith, count-length));
    power =
        ap (slice (at + Device.mot_power) 2) store_motor_slot_lem
        ∙ copied (at + Device.mot_power) (Drive.motor_power slot) 2 telemetry with_speed
            (omega (arith, whole)) (omega (arith, speed-length));
  }
