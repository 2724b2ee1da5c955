-- ===== src/Link/Receive/Whole.antt =====
-- A frame of version 2 from the line to `process_command`, through `raspike_prot_receive` of
-- src/raspike_protocol.c.
use libraspike_art.Base.{
  ℕ, ◌+◌, ◌≡◌, refl, sym, ap, ◌∙◌, List, [], ◌∷◌, ◌++◌, Option, some, Bool, true, false, not, ◌||◌,
  if◌then◌else◌, length, drop, ℤ, pos, Outcome, done, blocked, fault, bind_done, arith,
}
use libraspike_art.Wire.Layout.{v2_start}
use libraspike_art.Com.Os.{Round}
use libraspike_art.Com.Usb.{Descriptor}
use libraspike_art.Com.Usb.Prompt.{IsOpen, Prompt}
use libraspike_art.Link.Process.{process_command}
use libraspike_art.Link.System.{is_null, System, on_link}
use libraspike_art.Link.Send.{v2_frame}
use libraspike_art.Link.Receive.{
  receive_bytes, receive_frame, receive_started, prot_receive, count_received, enter, leave,
}
use libraspike_art.Link.Receive.Checked.{Sendable}
use libraspike_art.Link.Receive.Frames.{received, receive_bytes_all, receive_v2_frame-v2_frame}

gate :
    (stop : Bool) (desc : Option Descriptor) (complete : Bool) (d : Descriptor)
    → stop ≡ false
    → desc ≡ some d
    → complete ≡ true
    → (stop || is_null desc || not complete) ≡ false
gate stop desc complete d e f g = rw (e, f, g) refl

-- The branch of a test that fails.
past : {A : Type 0} (b : Bool) (o o' : Outcome System A) → b ≡ false → (if b then o else o') ≡ o'
past true o o' e = cc
past false o o' e = refl

-- The end of `raspike_prot_receive`: a frame with a result of its own is counted, and the receiver
-- leaves.
abbrev pub leaves_with : Outcome System ℤ → Outcome System ℤ
leaves_with (done ret t) = done ret (record t { link = leave t.link })
leaves_with blocked = blocked
leaves_with fault = fault

abbrev pub counts_with : Outcome System ℤ → Outcome System ℤ
counts_with (done ret t) = count_received ret t
counts_with blocked = blocked
counts_with fault = fault

module _ (port cmd flags sequence session : ℕ) (payload : List ℕ)
    (sendable : Sendable port cmd flags sequence session payload) (d : Descriptor)
    (r₀ r₁ r₂ : Round) (script : List Round) (rest : List ℕ) (is_open : IsOpen d)
    (prompt₀ : Prompt 1 r₀) (prompt₁ : Prompt 13 r₁)
    (prompt₂ : Prompt (length payload + 2) r₂) where
  -- The state in which the command is processed: the frame is taken from the line, and the receiver is
  -- counted.
  abbrev pub arrived : System → System
  arrived s = record s {
    link = enter s.link;
    line = record s.line {
      os = record s.line.os {
        now = s.line.os.now + r₀.elapsed + r₁.elapsed + r₂.elapsed;
        script = script;
        input = rest;
      };
    };
  }

  abbrev behind_start : List ℕ
  behind_start = drop 1 (v2_frame port cmd flags sequence session payload) ++ rest

  start_first :
      v2_frame port cmd flags sequence session payload ++ rest ≡ v2_start ∷ ([] ++ behind_start)
  unfolding v2_frame
  start_first = refl

  started :
      (s : System)
      → s.link.desc ≡ some d
      → s.line.os.input ≡ v2_frame port cmd flags sequence session payload ++ rest
      → s.line.os.script ≡ r₀ ∷ r₁ ∷ r₂ ∷ script
      → receive_started (record s { link = enter s.link })
        ≡ counts_with
            (on_link (process_command port cmd flags sequence session payload) (arrived s))
  unfolding receive_started receive_frame
  started s desc input rounds =
      let entered : System = record s { link = enter s.link } in
      let s₀ = received r₀ (r₁ ∷ r₂ ∷ script) behind_start entered in
      bind_done (receive_bytes 1 500 entered) _ (pos 1, v2_start ∷ []) s₀
        (receive_bytes_all 500 (omega arith) (omega arith) d r₀ (r₁ ∷ r₂ ∷ script) v2_start []
          behind_start is_open prompt₀ entered desc (input ∙ start_first) rounds)
      ∙ ap counts_with (
          receive_v2_frame-v2_frame port cmd flags sequence session payload sendable d r₁ r₂ script
            rest is_open prompt₁ prompt₂ s₀ desc (sym start_first) refl)

  -- In a session that is complete and not stopped, a frame of version 2 on the line, as
  -- `send_v2_frame` makes it, is taken by one call of `raspike_prot_receive`, start byte and all, if the
  -- system hands out its bytes at once: its fields and its payload are handed to `process_command` as
  -- they were sent, the result of that is counted and returned, and the bytes behind the frame stay.
  pub prot_receive-v2_frame :
      (s : System)
      → s.link.stop_communication ≡ false
      → s.link.desc ≡ some d
      → s.link.handshake_complete ≡ true
      → s.line.os.input ≡ v2_frame port cmd flags sequence session payload ++ rest
      → s.line.os.script ≡ r₀ ∷ r₁ ∷ r₂ ∷ script
      → prot_receive s
        ≡ leaves_with (
            counts_with
              (on_link (process_command port cmd flags sequence session payload) (arrived s)))
  unfolding prot_receive
  prot_receive-v2_frame s going desc complete input rounds =
      past (s.link.stop_communication || is_null s.link.desc || not s.link.handshake_complete) _ _
        (gate _ _ _ d going desc complete)
      ∙ ap leaves_with (started s desc input rounds)
