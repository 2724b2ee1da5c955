-- ===== src/Link/Send/Keeps.antt =====
-- What a sender does to the session, src/raspike_protocol.c, lines 166 to 233 and 464 to 475.
use libraspike_art.Base.{
  ℕ, not, ◌&&◌, ◌||◌, Option, Bool, true, false, neg, is_neg, Action, done, Calm, Post, bind-Post,
  either-Post, or-Post, pure,
}
use libraspike_art.Base.Errno.{einval}
use libraspike_art.Com.Fd.{Buf, bytes}
use libraspike_art.Com.Usb.{Com, Descriptor, com_send, com_flush, buf_size}
use libraspike_art.Com.Usb.Calm.{com_send-Calm, com_flush-Calm}
use libraspike_art.Link.State.{Link, Counter}
use libraspike_art.Link.Ports.{is_valid_port, next_sequence}
use libraspike_art.Link.System.{is_null, System, on_desc}
use libraspike_art.Link.Send.{
  send_legacy_frame, send_v2_frame, flush_after, count_frame, send_frame, exceeds, lacks_data,
  v2_frame, legacy_frame, contents, prot_send, prot_send_priority,
}
use libraspike_art.Link.System.Keeps.{Stable, Holds, on_desc-Holds}

module _ (bad : Type 0) (P : Link → Type 0) (stable : Stable bad P) where
  abbrev Held : {A : Type 0} → A → System → Type 0
  Held = Holds bad P stable

  to_desc :
      {A : Type 0} (f : Option Descriptor → Action Com A) (s : System)
      → Calm (f s.link.desc s.line)
      → P s.link
      → Post bad Held (on_desc f s)
  to_desc f s calm h = on_desc-Holds bad P stable f s calm h

  v2-Holds :
      (port cmd : ℕ) (payload : Buf) (sequence flags : ℕ) (s : System)
      → P s.link
      → Post bad Held (send_v2_frame port cmd payload sequence flags s)
  unfolding send_v2_frame
  v2-Holds port cmd payload sequence flags s h =
      let frame = v2_frame port cmd flags sequence s.link.session_id (contents payload) in
      either-Post bad Held _ (done (neg einval) s) _ h (
        to_desc (λ d. com_send d (bytes frame)) s (com_send-Calm s.link.desc (bytes frame) s.line)
          h)

  legacy-Holds :
      (port cmd : ℕ) (payload : Buf) (s : System)
      → P s.link
      → Post bad Held (send_legacy_frame port cmd payload s)
  unfolding send_legacy_frame
  legacy-Holds port cmd payload s h =
      let frame = legacy_frame port cmd (contents payload) in
      or-Post bad Held
        (not (is_valid_port port)
          || is_neg (buf_size payload)
          || exceeds (buf_size payload) 255
          || lacks_data payload)
        (pure (neg einval)) (on_desc (λ d. com_send d (bytes frame))) s h
        (to_desc (λ d. com_send d (bytes frame)) s (com_send-Calm s.link.desc (bytes frame) s.line)
          h)

  pub send_frame-Holds :
      (port cmd : ℕ) (payload : Buf) (sequence flags : ℕ) (flush_now : Bool) (s : System)
      → P s.link
      → Post bad Held (send_frame port cmd payload sequence flags flush_now s)
  unfolding send_frame
  send_frame-Holds port cmd payload sequence flags flush_now s h =
      either-Post bad Held (is_null s.link.desc || s.link.stop_communication) _ _ h (
        bind-Post bad Held Held _ count_frame
          (bind-Post bad Held Held _ (flush_after flush_now)
            (or-Post bad Held s.link.use_protocol_v2 _ _ s
              (v2-Holds port cmd payload sequence flags s h) (legacy-Holds port cmd payload s h))
            (λ ret t k.
              or-Post bad Held (not (is_neg ret) && flush_now) _ _ t
                (bind-Post bad Held Held (on_desc com_flush t) _
                  (to_desc com_flush t (com_flush-Calm t.link.desc t.line) k) (λ a u m. m))
                k))
          (λ ret t k.
            either-Post bad Held (is_neg ret) _ _ k (stable.counts Counter.tx_frames t.link k)))

  pub prot_send-Holds :
      (port cmd : ℕ) (payload : Buf) (s : System)
      → P s.link
      → Post bad Held (prot_send port cmd payload s)
  unfolding prot_send next_sequence
  prot_send-Holds port cmd payload s h =
      send_frame-Holds port cmd payload _ 0 false _ (stable.sequences s.link h)

  pub prot_send_priority-Holds :
      (port cmd : ℕ) (payload : Buf) (s : System)
      → P s.link
      → Post bad Held (prot_send_priority port cmd payload s)
  unfolding prot_send_priority next_sequence
  prot_send_priority-Holds port cmd payload s h =
      send_frame-Holds port cmd payload _ _ true _ (stable.sequences s.link h)
