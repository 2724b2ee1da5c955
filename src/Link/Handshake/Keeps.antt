-- ===== src/Link/Handshake/Keeps.antt =====
-- What the handshake does to the session, src/raspike_protocol.c, lines 235 to 340: it sets the version
-- of the hub, and the hello sets the capabilities, the session and the protocol version. A property
-- that these leave alone is kept.
use libraspike_art.Base.{
  ℕ, zero, suc, ◌-◌, not, ◌&&◌, ◌||◌, List, [], ◌∷◌, Option, Bool, true, false, ltb, ◌==◌, ◌==ℤ◌,
  Bool-cases, inl, inr, if◌then◌else◌, ℤ, pos, neg, is_neg, length, drop, bit_and, Action, Ends,
  bind-Ends, within-Ends,
}
use libraspike_art.Base.Errno.{etimedout, eagain}
use libraspike_art.Wire.Word.{byte, get_u16, get_u32}
use libraspike_art.Wire.Layout.{
  v2_version, v2_cap_framing, port_none, v2_hello_payload_size, cmd_start, cmd_init, cmd_init_magic,
}
use libraspike_art.Wire.Layout.Status
use libraspike_art.Wire.Command.{cmd_link_hello}
use libraspike_art.Com.Fd.{bytes}
use libraspike_art.Com.Usb.{
  Com, Descriptor, com_send, com_flush, com_discard_input, com_receive_timeout,
}
use libraspike_art.Link.State.{Link}
use libraspike_art.Link.System.{System, on_desc}
use libraspike_art.Link.Receive.{receive_bytes}
use libraspike_art.Link.Handshake.{
  set_version, scan_loop, scan_for_byte, read_version, perform_handshake_once, handshake_loop,
  perform_handshake, accept_hello, receive_legacy_hello, handshake_timeout_ms, handshake_attempts,
}

module _ (P : Link → Type 0) where
  abbrev Still : {A : Type 0} → A → System → Type 0
  Still a s = P s.link

  pub or-Still :
      {A : Type 0} (b : Bool) (m m' : Action System A) (s : System)
      → Ends Still (m s)
      → Ends Still (m' s)
      → Ends Still ((if b then m else m') s)
  or-Still true m m' s h h' = h
  or-Still false m m' s h h' = h'

  desc-Still :
      {A : Type 0} (f : Option Descriptor → Action Com A) (s : System)
      → P s.link
      → Ends Still (on_desc f s)
  desc-Still f s h =
      within-Ends Still (f s.link.desc s.line) (λ c s. record s { line = c }) s (λ a c. h)

  bytes-Still :
      (size timeout_ms : ℕ) (s : System) → P s.link → Ends Still (receive_bytes size timeout_ms s)
  unfolding receive_bytes
  bytes-Still size timeout_ms s h = desc-Still (λ d. com_receive_timeout d size timeout_ms) s h

  scan_loop-Still :
      (fuel target timeout_ms start : ℕ) (s : System)
      → P s.link
      → Ends Still (scan_loop fuel target timeout_ms start s)
  unfolding scan_loop
  scan_loop-Still zero target timeout_ms start s h = tt
  scan_loop-Still (suc fuel) target timeout_ms start s h =
      elim (Bool-cases (ltb (s.line.os.now - start) timeout_ms)) [
        | inl e ↦ rw e (
            bind-Ends Still Still (receive_bytes 1 100 s) _ (bytes-Still 1 100 s h) (λ p t k.
              or-Still ((p.0 ==ℤ pos 1) && (byte p.1 0 == target)) _ _ t k (
                or-Still (is_neg p.0 && not (p.0 ==ℤ neg etimedout) && not (p.0 ==ℤ neg eagain)) _ _
                  t k (scan_loop-Still fuel target timeout_ms start t k))))
        | inr e ↦ rw e h
      ]

  scan-Still :
      (target timeout_ms : ℕ) (s : System)
      → P s.link
      → Ends Still (scan_for_byte target timeout_ms s)
  unfolding scan_for_byte
  scan-Still target timeout_ms s h =
      scan_loop-Still (suc (length s.line.os.script)) target timeout_ms s.line.os.now s h

  module _ (sets : (version : List ℕ) (l : Link) → P l → P (set_version version l)) where
    read_version-Still : (s : System) → P s.link → Ends Still (read_version s)
    unfolding read_version
    read_version-Still s h =
        bind-Ends Still Still (receive_bytes 1 500 s) _ (bytes-Still 1 500 s h) (λ p t k.
          or-Still (is_neg p.0) _ _ t k (
            or-Still (not (byte p.1 0 == cmd_init_magic)) _ _ t k (
              bind-Ends Still Still (receive_bytes 3 500 t) _ (bytes-Still 3 500 t k)
                (λ q u m. or-Still (is_neg q.0) _ _ u m (sets q.1 u.link m)))))

    once-Still : (s : System) → P s.link → Ends Still (perform_handshake_once s)
    unfolding perform_handshake_once
    once-Still s h =
        bind-Ends Still Still _ _
          (desc-Still (λ d. com_send d (bytes (cmd_init ∷ cmd_init_magic ∷ []))) s h)
          (λ sent t k. or-Still (is_neg sent) _ _ t k (
            bind-Ends Still Still (on_desc com_flush t) _ (desc-Still com_flush t k) (λ flushed u m.
              or-Still (is_neg flushed) _ _ u m (
                bind-Ends Still Still (scan_for_byte cmd_init handshake_timeout_ms u) _
                  (scan-Still cmd_init handshake_timeout_ms u m)
                  (λ found v n. or-Still (is_neg found) _ _ v n (read_version-Still v n))))))

    loop-Still :
        (left : ℕ) (last_error : ℤ) (s : System)
        → P s.link
        → Ends Still (handshake_loop left last_error s)
    unfolding handshake_loop
    loop-Still zero last_error s h = h
    loop-Still (suc left) last_error s h =
        bind-Ends Still Still (on_desc com_discard_input s) _ (desc-Still com_discard_input s h)
          (λ discarded t k.
            bind-Ends Still Still (perform_handshake_once t) _ (once-Still t k) (λ result u m.
              or-Still (result ==ℤ pos 0) _ _ u m (
                or-Still (ltb 0 left) _ _ u (loop-Still left result _ m)
                  (loop-Still left result u m))))

    pub perform_handshake-Still : (s : System) → P s.link → Ends Still (perform_handshake s)
    unfolding perform_handshake
    perform_handshake-Still s h = loop-Still handshake_attempts (neg etimedout) s h

  module _
      (greets : ((capabilities session : ℕ) (l : Link)
          → P l
          → P (record l { capabilities = capabilities; session_id = session }))
        × ((l : Link) → P l → P (record l { use_protocol_v2 = true }))) where
    accept_hello-Still :
        (payload : List ℕ) (s : System) → P s.link → Ends Still (accept_hello payload s)
    unfolding accept_hello
    accept_hello-Still payload s h = or-Still (not (byte payload 0 == v2_version)) _ _ s h (
        or-Still
          (bit_and (byte payload 1) v2_cap_framing == 0
            || get_u32 (drop 4 payload) == 0
            || ltb (get_u16 (drop 2 payload)) Status.size)
          _ _ _ (greets.0 (byte payload 1) (get_u32 (drop 4 payload)) s.link h)
          (greets.1 _ (greets.0 (byte payload 1) (get_u32 (drop 4 payload)) s.link h)))

    pub hello-Still : (s : System) → P s.link → Ends Still (receive_legacy_hello s)
    unfolding receive_legacy_hello
    hello-Still s h =
        bind-Ends Still Still (scan_for_byte cmd_start 2000 s) _ (scan-Still cmd_start 2000 s h)
          (λ found t k. or-Still (is_neg found) _ _ t k (
            bind-Ends Still Still (receive_bytes 3 1000 t) _ (bytes-Still 3 1000 t k) (λ p u m.
              or-Still (is_neg p.0) _ _ u m (
                or-Still
                  (not (byte p.1 0 == cmd_link_hello)
                    || not (byte p.1 2 == port_none)
                    || not (byte p.1 1 == v2_hello_payload_size))
                  _ _ u m
                  (bind-Ends Still Still (receive_bytes v2_hello_payload_size 1000 u) _
                    (bytes-Still v2_hello_payload_size 1000 u m)
                    (λ q v n. or-Still (is_neg q.0) _ _ v n (accept_hello-Still q.1 v n)))))))
