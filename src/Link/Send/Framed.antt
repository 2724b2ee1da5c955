-- ===== src/Link/Send/Framed.antt =====
-- What `send_frame` of src/raspike_protocol.c puts on the line.
use libraspike_art.Base.{
  ℕ, ◌≡◌, refl, not, ◌&&◌, ◌||◌, ◌∙◌, List, ◌++◌, Option, none, some, Bool, true, false, Bool-cases,
  inl, inr, if◌then◌else◌, ℤ, pos, negsuc, neg, is_neg, Outcome, Action, done, blocked, fault, Ends,
  bind-Ends, Ends-done, pure,
}
use libraspike_art.Base.Errno.{einval, enotconn}
use libraspike_art.Com.Fd.{Buf, bytes}
use libraspike_art.Com.Usb.{Com, Descriptor, com_send, com_flush, buf_size}
use libraspike_art.Com.Usb.Stream.{stream}
use libraspike_art.Com.Usb.Channel.{
  Clear, Operation, Refines, sends, flushes, sends-Refines, flushes-Refines,
}
use libraspike_art.Link.Ports.{is_valid_port}
use libraspike_art.Link.State.{Link}
use libraspike_art.Link.System.{is_null, System, on_desc}
use libraspike_art.Link.Send.{
  send_legacy_frame, send_v2_frame, flush_after, count_frame, send_frame, exceeds, lacks_data,
  v2_frame, legacy_frame, contents,
}

-- The frame that a session sends.
abbrev pub the_frame : Link → ℕ → ℕ → Buf → ℕ → ℕ → List ℕ
the_frame l port cmd payload sequence flags =
    if l.use_protocol_v2
    then v2_frame port cmd flags sequence l.session_id (contents payload)
    else legacy_frame port cmd (contents payload)

any_sends :
    (d : Option Descriptor) (buf : List ℕ) (c : Com)
    → Clear c
    → Ends (Refines (sends buf) c) (com_send d (bytes buf) c)
unfolding com_send
any_sends none buf c h = (h, λ passed. absurd cc)
any_sends (some d) buf c h = sends-Refines d buf c h

any_flushes : (d : Option Descriptor) (c : Com) → Clear c → Ends (Refines flushes c) (com_flush d c)
unfolding com_flush
any_flushes none c h = (h, λ passed. absurd cc)
any_flushes (some d) c h = flushes-Refines d c h

both_passed :
    (flushed ret : ℤ)
    → is_neg (if is_neg flushed then flushed else ret) ≡ false
    → is_neg flushed ≡ false
both_passed (pos n) ret e = refl
both_passed (negsuc n) ret e = e

sent_too :
    (ret : ℤ) (flush_now : Bool) → (not (is_neg ret) && flush_now) ≡ true → is_neg ret ≡ false
sent_too (pos n) flush_now e = refl
sent_too (negsuc n) flush_now e = cc

-- A call of src/raspike_com.c on the descriptor of the session.
on_desc-Refines :
    (op : Operation) (f : Option Descriptor → Action Com ℤ) (s : System)
    → Ends (Refines op s.line) (f s.link.desc s.line)
    → Ends (λ z t. Refines op s.line z t.line) (on_desc f s)
on_desc-Refines op f s h = within-done (f s.link.desc s.line) h
  where
    within-done :
        (o : Outcome Com ℤ)
        → Ends (Refines op s.line) o
        → Ends
            (λ z (t : System). Refines op s.line z t.line)
            (elim o [
              | done a c ↦ done a (record s { line = c })
              | blocked ↦ blocked
              | fault ↦ fault
            ])
    within-done (done a c) h = h
    within-done blocked h = tt
    within-done fault h = tt

or-Ends :
    (P : ℤ → System → Type 0) (b : Bool) (m m' : Action System ℤ) (s : System)
    → Ends P (m s)
    → Ends P (m' s)
    → Ends P ((if b then m else m') s)
or-Ends P true m m' s h h' = h
or-Ends P false m m' s h h' = h'

module _ (line : Com) (frame : List ℕ) where
  -- If the result is no error, the frame was added to the stream of bytes.
  abbrev pub Framed : ℤ → System → Type 0
  Framed ret s = Clear s.line × (is_neg ret ≡ false → stream s.line ≡ stream line ++ frame)

  -- The result of a call that is refused.
  refused : (code : ℕ) (s : System) → is_neg (neg code) ≡ true → Clear s.line → Framed (neg code) s
  refused code s negative h = (h, λ passed. absurd cc)

  either-Framed :
      (b : Bool) (o o' : Outcome System ℤ)
      → Ends Framed o
      → Ends Framed o'
      → Ends Framed (if b then o else o')
  either-Framed true o o' h h' = h
  either-Framed false o o' h h' = h'

  flush_after-Framed :
      (flush_now : Bool) (ret : ℤ) (s : System)
      → Framed ret s
      → Ends Framed (flush_after flush_now ret s)
  flush_after-Framed flush_now ret s h = elim (Bool-cases (not (is_neg ret) && flush_now)) [
    | inr e ↦ rw e h
    | inl e ↦ rw e (
        bind-Ends (Cleared s) Framed (on_desc com_flush s)
          (λ flushed. pure (if is_neg flushed then flushed else ret))
          (on_desc-Refines flushes com_flush s (any_flushes s.link.desc s.line h.0))
          (λ z t k.
            (k.0, λ passed. k.1 (both_passed z ret passed) ∙ h.1 (sent_too ret flush_now e))))
  ]
    where
      Cleared : System → ℤ → System → Type 0
      Cleared s z t = Refines flushes s.line z t.line

  count-Framed : (ret : ℤ) (s : System) → Framed ret s → Ends Framed (count_frame ret s)
  count-Framed ret s h = either-Framed (is_neg ret) _ _ h h

module _ (s : System) (h : Clear s.line) where
  handed : (frame : List ℕ) → Ends (Framed s.line frame) (on_desc (λ d. com_send d (bytes frame)) s)
  handed frame =
      on_desc-Refines (sends frame) (λ d. com_send d (bytes frame)) s
        (any_sends s.link.desc frame s.line h)

  v2-Framed :
      (port cmd : ℕ) (payload : Buf) (sequence flags : ℕ)
      → Ends
          (Framed s.line (v2_frame port cmd flags sequence s.link.session_id (contents payload)))
          (send_v2_frame port cmd payload sequence flags s)
  unfolding send_v2_frame
  v2-Framed port cmd payload sequence flags =
      let frame = v2_frame port cmd flags sequence s.link.session_id (contents payload) in
      either-Framed s.line frame _ (done (neg einval) s) _ (refused s.line frame einval s refl h)
        (handed frame)

  legacy-Framed :
      (port cmd : ℕ) (payload : Buf)
      → Ends
          (Framed s.line (legacy_frame port cmd (contents payload)))
          (send_legacy_frame port cmd payload s)
  unfolding send_legacy_frame
  legacy-Framed port cmd payload =
      let frame = legacy_frame port cmd (contents payload) in
      or-Ends (Framed s.line frame)
        (not (is_valid_port port)
          || is_neg (buf_size payload)
          || exceeds (buf_size payload) 255
          || lacks_data payload)
        (pure (neg einval)) (on_desc (λ d. com_send d (bytes frame))) s
        (refused s.line frame einval s refl h) (handed frame)

  by_version :
      (port cmd : ℕ) (payload : Buf) (sequence flags : ℕ) (v2 : Bool)
      → Ends
          (Framed s.line (
            if v2
            then v2_frame port cmd flags sequence s.link.session_id (contents payload)
            else legacy_frame port cmd (contents payload)))
          ((if v2
              then send_v2_frame port cmd payload sequence flags
              else send_legacy_frame port cmd payload)
            s)
  by_version port cmd payload sequence flags true = v2-Framed port cmd payload sequence flags
  by_version port cmd payload sequence flags false = legacy-Framed port cmd payload

  frame-Framed :
      (port cmd : ℕ) (payload : Buf) (sequence flags : ℕ) (flush_now : Bool)
      → Ends
          (Framed s.line (the_frame s.link port cmd payload sequence flags))
          (send_frame port cmd payload sequence flags flush_now s)
  unfolding send_frame
  frame-Framed port cmd payload sequence flags flush_now =
      let frame = the_frame s.link port cmd payload sequence flags in
      let P = Framed s.line frame in
      either-Framed s.line frame (is_null s.link.desc || s.link.stop_communication) _ _
        (refused s.line frame enotconn s refl h)
        (bind-Ends P P _ count_frame
          (bind-Ends P P
            ((if s.link.use_protocol_v2
                then send_v2_frame port cmd payload sequence flags
                else send_legacy_frame port cmd payload)
              s)
            (flush_after flush_now)
            (by_version port cmd payload sequence flags s.link.use_protocol_v2)
            (λ ret t k. flush_after-Framed s.line frame flush_now ret t k))
          (λ ret t k. count-Framed s.line frame ret t k))

pub send_frame-Framed :
    (port cmd : ℕ) (payload : Buf) (sequence flags : ℕ) (flush_now : Bool) (s s' : System) (ret : ℤ)
    → Clear s.line
    → send_frame port cmd payload sequence flags flush_now s ≡ done ret s'
    → Framed s.line (the_frame s.link port cmd payload sequence flags) ret s'
send_frame-Framed port cmd payload sequence flags flush_now s s' ret h e =
    Ends-done (Framed s.line (the_frame s.link port cmd payload sequence flags))
      (send_frame port cmd payload sequence flags flush_now s)
      (frame-Framed s h port cmd payload sequence flags flush_now) ret s' e

-- If no bytes wait outside the buffered mode, a frame that is sent without an error adds exactly its
-- bytes to those that were given to the device or wait in the send buffer, in version 2 with the
-- sequence number and the number of the session; and still no bytes wait outside the buffered mode.
pub send_frame-the_frame :
    (port cmd : ℕ) (payload : Buf) (sequence flags : ℕ) (flush_now : Bool) (s s' : System) (ret : ℤ)
    → Clear s.line
    → send_frame port cmd payload sequence flags flush_now s ≡ done ret s'
    → is_neg ret ≡ false
    → Clear s'.line
      × (stream s'.line ≡ stream s.line ++ the_frame s.link port cmd payload sequence flags)
send_frame-the_frame port cmd payload sequence flags flush_now s s' ret h e passed =
    let framed = send_frame-Framed port cmd payload sequence flags flush_now s s' ret h e in
    (framed.0, framed.1 passed)
