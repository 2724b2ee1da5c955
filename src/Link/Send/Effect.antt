-- ===== src/Link/Send/Effect.antt =====
-- The session before and after `send_frame` of src/raspike_protocol.c.
use libraspike_art.Base.{
  ℕ, ◌≡◌, refl, ap, not, ◌&&◌, ◌||◌, List, Option, Bool, true, false, Bool-cases, inl, inr,
  if◌then◌else◌, ℤ, neg, is_neg, Outcome, Action, done, Ends, bind-Ends, within-Ends, Ends-done,
  Ends-trivial, pure,
}
use libraspike_art.Com.Fd.{Buf, bytes}
use libraspike_art.Com.Usb.{Com, Descriptor, com_send, com_flush}
use libraspike_art.Com.Usb.{buf_size}
use libraspike_art.Link.Ports.{is_valid_port}
use libraspike_art.Link.State.{Link, Counter, stats_increment}
use libraspike_art.Link.System.{is_null, System, Turn, on_desc}
use libraspike_art.Link.Send.{
  send_legacy_frame, send_v2_frame, flush_after, count_frame, send_frame, exceeds, lacks_data,
  v2_frame, legacy_frame, contents,
}

module _ (l : Link) (turns : List Turn) where
  -- Nothing has changed but the line.
  abbrev pub Untouched : {A : Type 0} → A → System → Type 0
  Untouched a s = (s.link ≡ l) × (s.turns ≡ turns)

  -- If the result is no error, the frame is counted.
  abbrev pub Sends : ℤ → System → Type 0
  Sends ret s =
      is_neg ret ≡ false → (s.link ≡ stats_increment Counter.tx_frames l) × (s.turns ≡ turns)

  on_desc-Untouched :
      {A : Type 0} (f : Option Descriptor → Action Com A) (s : System)
      → Untouched tt s
      → Ends Untouched (on_desc f s)
  on_desc-Untouched f s h =
      within-Ends Untouched (f s.link.desc s.line) (λ c s. record s { line = c }) s (λ a c. h)

  either :
      {A : Type 0} (b : Bool) (m m' : Action System A) (s : System)
      → Ends Untouched (m s)
      → Ends Untouched (m' s)
      → Ends Untouched ((if b then m else m') s)
  either true m m' s h h' = h
  either false m m' s h h' = h'

  either_outcome :
      {A : Type 0} (b : Bool) (o o' : Outcome System A)
      → Ends Untouched o
      → Ends Untouched o'
      → Ends Untouched (if b then o else o')
  either_outcome true o o' h h' = h
  either_outcome false o o' h h' = h'

  v2-Untouched :
      (port cmd : ℕ) (payload : Buf) (sequence flags : ℕ) (s : System)
      → Untouched tt s
      → Ends Untouched (send_v2_frame port cmd payload sequence flags s)
  unfolding send_v2_frame
  v2-Untouched port cmd payload sequence flags s h = either_outcome _ (done (neg 22) s) _ h (
      on_desc-Untouched
        (λ d.
          com_send d
            (bytes (v2_frame port cmd flags sequence s.link.session_id (contents payload))))
        s h)

  legacy-Untouched :
      (port cmd : ℕ) (payload : Buf) (s : System)
      → Untouched tt s
      → Ends Untouched (send_legacy_frame port cmd payload s)
  unfolding send_legacy_frame
  legacy-Untouched port cmd payload s h =
      either
        (not (is_valid_port port)
          || is_neg (buf_size payload)
          || exceeds (buf_size payload) 255
          || lacks_data payload)
        (pure (neg 22))
        (on_desc (λ d. com_send d (bytes (legacy_frame port cmd (contents payload))))) s h
        (on_desc-Untouched (λ d. com_send d (bytes (legacy_frame port cmd (contents payload)))) s h)

  flush-Untouched :
      (flush_now : Bool) (ret : ℤ) (s : System)
      → Untouched tt s
      → Ends Untouched (flush_after flush_now ret s)
  flush-Untouched flush_now ret s h =
      either (not (is_neg ret) && flush_now) _ (pure ret) s
        (bind-Ends Untouched Untouched (on_desc com_flush s)
          (λ flushed. pure (if is_neg flushed then flushed else ret))
          (on_desc-Untouched com_flush s h) (λ a t k. k))
        h

  count-Sends : (ret : ℤ) (s : System) → Untouched tt s → Ends Sends (count_frame ret s)
  count-Sends ret s h = elim (Bool-cases (is_neg ret)) [
    | inl e ↦ rw e (λ passed. absurd cc)
    | inr e ↦ rw e (λ passed. (ap (stats_increment Counter.tx_frames) h.0, h.1))
  ]

  frame-Sends :
      (port cmd : ℕ) (payload : Buf) (sequence flags : ℕ) (flush_now : Bool) (s : System)
      → Untouched tt s
      → Ends Sends (send_frame port cmd payload sequence flags flush_now s)
  unfolding send_frame
  frame-Sends port cmd payload sequence flags flush_now s h =
      elim (Bool-cases (is_null s.link.desc || s.link.stop_communication)) [
        | inl e ↦ rw e (λ passed. absurd cc)
        | inr e ↦ rw e (
            bind-Ends Untouched Sends _ count_frame
              (bind-Ends Untouched Untouched
                ((if s.link.use_protocol_v2
                    then send_v2_frame port cmd payload sequence flags
                    else send_legacy_frame port cmd payload)
                  s)
                (flush_after flush_now)
                (either s.link.use_protocol_v2 _ _ s
                  (v2-Untouched port cmd payload sequence flags s h)
                  (legacy-Untouched port cmd payload s h))
                (λ ret t k. flush-Untouched flush_now ret t k))
              (λ ret t k. count-Sends ret t k))
      ]

abbrev Open : System → ℤ → System → Type 0
Open s ret t = is_neg ret ≡ false → is_null s.link.desc ≡ false

send_frame-Open :
    (port cmd : ℕ) (payload : Buf) (sequence flags : ℕ) (flush_now : Bool) (s : System)
    → Ends (Open s) (send_frame port cmd payload sequence flags flush_now s)
unfolding send_frame
send_frame-Open port cmd payload sequence flags flush_now s =
    elim (Bool-cases (is_null s.link.desc)) [
      | inl e ↦ rw e (λ passed. absurd cc)
      | inr e ↦
          Ends-trivial (Open s) (send_frame port cmd payload sequence flags flush_now s)
            (λ a t passed. e)
    ]

-- A frame is sent only while the session has its descriptor.
pub send_frame-is_null :
    (port cmd : ℕ) (payload : Buf) (sequence flags : ℕ) (flush_now : Bool) (s s' : System) (ret : ℤ)
    → send_frame port cmd payload sequence flags flush_now s ≡ done ret s'
    → is_neg ret ≡ false
    → is_null s.link.desc ≡ false
send_frame-is_null port cmd payload sequence flags flush_now s s' ret e =
    Ends-done (Open s) (send_frame port cmd payload sequence flags flush_now s)
      (send_frame-Open port cmd payload sequence flags flush_now s) ret s' e

-- When `send_frame` returns no error, it has counted one frame more and changed nothing else of the
-- session.
pub send_frame-Sends :
    (port cmd : ℕ) (payload : Buf) (sequence flags : ℕ) (flush_now : Bool) (s s' : System) (ret : ℤ)
    → send_frame port cmd payload sequence flags flush_now s ≡ done ret s'
    → is_neg ret ≡ false
    → (s'.link ≡ stats_increment Counter.tx_frames s.link) × (s'.turns ≡ s.turns)
send_frame-Sends port cmd payload sequence flags flush_now s s' ret e =
    Ends-done (Sends s.link s.turns) (send_frame port cmd payload sequence flags flush_now s)
      (frame-Sends s.link s.turns port cmd payload sequence flags flush_now s (refl, refl)) ret s' e
