-- ===== src/Device/Motor/Power.antt =====
-- `pup_motor_set_power` of src/raspike_motor.c, from the call to the frame on the line and back by
-- `pup_motor_get_power`.
use libraspike_art.Wire.Word.{put_u32}
use libraspike_art.Base.{
  unsigned32, ℕ, ◌≤◌, ◌<◌, ◌≡◌, refl, ap, ◌∙◌, ◌++◌, some, false, Bool-cases, inl, inr, ltb,
  ==-refl, ℤ, pos, negsuc, is_neg, Outcome, done, Ends, bind-Ends, Ends-intro, Ends-done, pure,
  arith,
}
use libraspike_art.Com.Fd.{Buf, bytes}
use libraspike_art.Com.Usb.Stream.{stream}
use libraspike_art.Com.Usb.Channel.{Clear}
use libraspike_art.Wire.Command.{cmd_mot_pow}
use libraspike_art.Link.State.{Device, Counter, stats_increment}
use libraspike_art.Link.Ports.{next_sequence}
use libraspike_art.Link.System.{System}
use libraspike_art.Link.Send.{prot_send, send_frame}
use libraspike_art.Link.Send.Effect.{Sends, send_frame-Sends}
use libraspike_art.Link.Send.Framed.{the_frame, Framed, send_frame-Framed}
use libraspike_art.Device.Common.{PbioError, success, set_device}
use libraspike_art.Device.Motor.{
  clamp_power, int_bytes, sent_result, motor_set_power, motor_get_power,
}

-- From -100 to 100.
abbrev pub IsPower : ℤ → Type 0
IsPower (pos n) = n ≤ 100
IsPower (negsuc n) = n ≤ 99

-- The second number is the first one, cut off at -100 and 100.
pub data CutOff : ℤ → ℤ → Type 0 where
  same : (power : ℤ) → IsPower power → CutOff power power
  above : (n : ℕ) → 100 < n → CutOff (pos n) (pos 100)
  below : (n : ℕ) → 99 < n → CutOff (negsuc n) (negsuc 99)

clamp_power-CutOff : (power : ℤ) → CutOff power (clamp_power power)
clamp_power-CutOff (pos n) = elim (Bool-cases (ltb 100 n)) [
  | inl e ↦ rw e (above n (ground arith))
  | inr e ↦ rw e (same (pos n) (ground arith))
]
clamp_power-CutOff (negsuc n) = elim (Bool-cases (ltb 99 n)) [
  | inl e ↦ rw e (below n (ground arith))
  | inr e ↦ rw e (same (negsuc n) (ground arith))
]

sent_ok : (sent : ℤ) → sent_result sent ≡ success → is_neg sent ≡ false
sent_ok (pos n) e = refl
sent_ok (negsuc n) e = cc

-- After a power that was set in the state s.
pub record Powered (i : ℕ) (power : ℤ) (s s' : System) : Type 0 where
  pub limited : ℤ
  pub cut_off : CutOff power limited
  pub read_back : motor_get_power (some i) s' ≡ limited
  pub sent :
      stream s'.line
      ≡ stream s.line
        ++ the_frame s.link
            (s.link.ports i).device.port_id
            cmd_mot_pow
            (bytes (put_u32 (unsigned32 limited)))
            s.link.next_sequence
            0

module _ (i : ℕ) (power : ℤ) (s : System) where
  abbrev powered : Device
  powered = record (s.link.ports i).device { cmd = cmd_mot_pow; power = clamp_power power }

  -- The state in which the frame is sent.
  abbrev sending : System
  sending = record s { link = (next_sequence (set_device i powered s.link)).0 }

  abbrev payload : Buf
  payload = bytes (int_bytes (clamp_power power))

  abbrev frame : Outcome System ℤ
  frame = send_frame powered.port_id cmd_mot_pow payload s.link.next_sequence 0 false sending

  abbrev BothHold : ℤ → System → Type 0
  BothHold ret t =
      Framed sending.line
        (the_frame sending.link powered.port_id cmd_mot_pow payload s.link.next_sequence 0) ret t
      × Sends sending.link sending.turns ret t

  frame-BothHold : Clear s.line → Ends BothHold frame
  frame-BothHold h = Ends-intro BothHold frame (λ ret t e. (
    send_frame-Framed powered.port_id cmd_mot_pow payload s.link.next_sequence 0 false sending t ret
        h e,
    send_frame-Sends powered.port_id cmd_mot_pow payload s.link.next_sequence 0 false sending t ret
        e,
  ))

  kept :
      (t : System)
      → t.link ≡ stats_increment Counter.tx_frames sending.link
      → (t.link.ports i).device ≡ powered
  unfolding stats_increment next_sequence
  kept t e = ap (λ l. (l.ports i).device) e ∙ rw (==-refl i) refl

  reads :
      (t : System)
      → (t.link.ports i).device ≡ powered
      → motor_get_power (some i) t ≡ clamp_power power
  unfolding motor_get_power
  reads t e = rw e refl

  abbrev Set : PbioError → System → Type 0
  Set ret t = ret ≡ success → Powered i power s t

  motor_set_power-Set : Clear s.line → Ends Set (motor_set_power (some i) power s)
  unfolding motor_set_power prot_send next_sequence
  motor_set_power-Set h =
      bind-Ends BothHold Set frame (λ ret. pure (sent_result ret)) (frame-BothHold h)
        (λ ret t both ok. record {
          limited = clamp_power power;
          cut_off = clamp_power-CutOff power;
          read_back = reads t (kept t (both.1 (sent_ok ret ok)).0);
          sent = both.0.1 (sent_ok ret ok);
        })

-- If `pup_motor_set_power` succeeds while no bytes wait outside the buffered mode, it has added to the
-- bytes on the line exactly one frame, for the motor's port, with the power cut off at -100 and 100 as
-- a 32-bit number, and `pup_motor_get_power` then gives that power.
pub motor_set_power-Powered :
    (i : ℕ) (power : ℤ) (s s' : System)
    → Clear s.line
    → motor_set_power (some i) power s ≡ done success s'
    → Powered i power s s'
motor_set_power-Powered i power s s' h e =
    Ends-done (Set i power s) (motor_set_power (some i) power s) (motor_set_power-Set i power s h)
      success s' e refl
