-- ===== src/Link/Receive/Keeps.antt =====
-- What a receiver does to the session, src/raspike_protocol.c, lines 696 to 815: only counting and
-- `process_command`. So a property that these two keep is kept by `receive_started`.
use libraspike_art.Base.{
  ℕ, zero, suc, ◌+◌, ◌-◌, not, ◌||◌, List, [], ◌∷◌, ◌++◌, ltb, ◌==◌, Bool-cases, inl, inr,
  if◌then◌else◌, length, drop, take, ℤ, neg, is_neg, ◌==ℤ◌, Outcome, done, blocked, fault, Post,
  bind-Post, or-Post, within-Post, pure, ◌>>=◌, ◌>>◌, get,
}
use libraspike_art.Base.Errno.{emsgsize, eprotonosupport, eagain, etimedout}
use libraspike_art.Wire.Word.{byte, get_u16, get_u32}
use libraspike_art.Wire.Crc.{crc16}
use libraspike_art.Wire.Layout.{v2_version, v2_start, cmd_start}
use libraspike_art.Com.Usb.{com_receive_timeout}
use libraspike_art.Com.Usb.Calm.{com_receive_timeout-Calm}
use libraspike_art.Link.State.{Link, Counter, stats_increment}
use libraspike_art.Link.Ports.{is_valid_port}
use libraspike_art.Link.Process.{process_command}
use libraspike_art.Link.System.{System, on_link, update_link}
use libraspike_art.Link.Receive.{
  receive_bytes, receive_legacy_frame, discard_receive_bytes, check_v2_frame, refuse_v2_frame,
  read_v2_frame, receive_v2_frame, receive_frame, receive_started, is_received, count_received,
}

-- A property of the session that the counters and every command keep; if `bad` is empty, no command
-- accesses memory through NULL.
pub record Keeps (bad : Type 0) (P : Link → Type 0) : Type 0 where
  pub counts : (k : Counter) (l : Link) → P l → P (stats_increment k l)
  pub handles :
      (port cmd flags sequence session : ℕ) (buf : List ℕ) (l : Link)
      → P l
      → Post bad (λ _. P) (process_command port cmd flags sequence session buf l)

module _ (bad : Type 0) (P : Link → Type 0) (keeps : Keeps bad P) where
  abbrev Same : {A : Type 0} → A → System → Type 0
  Same a s = P s.link

  counted : (k : Counter) (s : System) → P s.link → P (stats_increment k s.link)
  counted k s h = keeps.counts k s.link h

  bytes-Same :
      (size timeout_ms : ℕ) (s : System)
      → P s.link
      → Post bad Same (receive_bytes size timeout_ms s)
  unfolding receive_bytes
  bytes-Same size timeout_ms s h =
      within-Post bad Same (com_receive_timeout s.link.desc size timeout_ms s.line)
        (λ c s. record s { line = c }) s
        (com_receive_timeout-Calm s.link.desc size timeout_ms s.line) (λ a c. h)

  on_link-Same :
      (o : Outcome Link ℤ) (s : System)
      → Post bad (λ _. P) o
      → Post bad Same (elim o as (λ _. Outcome System ℤ) [
        | done a m ↦ done a (record s { link = m })
        | blocked ↦ blocked
        | fault ↦ fault
      ])
  on_link-Same (done a m) s k = k
  on_link-Same blocked s k = tt
  on_link-Same fault s k = k

  command-Same :
      (port cmd flags sequence session : ℕ) (buf : List ℕ) (s : System)
      → P s.link
      → Post bad Same (on_link (process_command port cmd flags sequence session buf) s)
  command-Same port cmd flags sequence session buf s h =
      on_link-Same (process_command port cmd flags sequence session buf s.link) s
        (keeps.handles port cmd flags sequence session buf s.link h)

  discard-Same :
      (fuel size : ℕ) (s : System) → P s.link → Post bad Same (discard_receive_bytes fuel size s)
  unfolding discard_receive_bytes
  discard-Same zero size s h = tt
  discard-Same (suc fuel) size s h =
      or-Post bad Same (ltb 0 size) _ _ s
        (bind-Post bad Same Same (receive_bytes (if ltb size 64 then size else 64) 1000 s) _
          (bytes-Same (if ltb size 64 then size else 64) 1000 s h)
          (λ p t k.
            or-Post bad Same (is_neg p.0) _ _ t k (discard-Same fuel (size - length p.1) t k)))
        h

  refuse-Same :
      (size code : ℕ) (s : System) → P s.link → Post bad Same (refuse_v2_frame size code s)
  unfolding refuse_v2_frame
  refuse-Same size code s h =
      bind-Post bad Same Same (discard_receive_bytes (size + 2) (size + 2) s) _
        (discard-Same (size + 2) (size + 2) s h) (λ a t k. counted Counter.framing_errors t k)

  check-Same :
      (frame : List ℕ) (size : ℕ) (s : System)
      → P s.link
      → Post bad Same (check_v2_frame frame size s)
  unfolding check_v2_frame
  check-Same frame size s h =
      or-Post bad Same
        (not (get_u16 (drop (14 + size) frame) == crc16 (take (13 + size) (drop 1 frame)))) _ _ s
        (counted Counter.crc_errors s h)
        (command-Same (byte frame 4) (byte frame 3) (byte frame 2) (get_u32 (drop 6 frame))
          (get_u32 (drop 10 frame)) (take size (drop 14 frame)) s h)

  v2-Same : (s : System) → P s.link → Post bad Same (receive_v2_frame s)
  unfolding receive_v2_frame read_v2_frame
  v2-Same s h =
      bind-Post bad Same Same (receive_bytes 13 1000 s) _ (bytes-Same 13 1000 s h) (λ p t k.
        or-Post bad Same (is_neg p.0) _ _ t k (
          or-Post bad Same (not (byte p.1 0 == v2_version)) _ _ t
            (refuse-Same (byte p.1 4) eprotonosupport t k)
            (or-Post bad Same (ltb 240 (byte p.1 4)) _ _ t (refuse-Same (byte p.1 4) emsgsize t k) (
              bind-Post bad Same Same (receive_bytes (byte p.1 4 + 2) 1000 t) _
                (bytes-Same (byte p.1 4 + 2) 1000 t k)
                (λ q u m.
                  or-Post bad Same (is_neg q.0) _ _ u m
                    (check-Same (v2_start ∷ (p.1 ++ q.1)) (byte p.1 4) u m))))))

  handled-Same :
      (port cmd : ℕ) (p : ℤ × List ℕ) (s : System)
      → P s.link
      → Post bad Same (
          (if is_neg p.0 then pure p.0 else (do
            update_link (stats_increment Counter.rx_legacy_frames)
            t ← get
            on_link (process_command port cmd 0 0 t.link.session_id p.1)))
            s)
  unfolding stats_increment
  handled-Same port cmd p s h = or-Post bad Same (is_neg p.0) _ _ s h (
      command-Same port cmd 0 0 s.link.session_id p.1
        (record s { link = stats_increment Counter.rx_legacy_frames s.link })
        (counted Counter.rx_legacy_frames s h))

  legacy-Same : (s : System) → P s.link → Post bad Same (receive_legacy_frame s)
  unfolding receive_legacy_frame
  legacy-Same s h =
      bind-Post bad Same Same (receive_bytes 3 1000 s) _ (bytes-Same 3 1000 s h) (λ p t k.
        or-Post bad Same (is_neg p.0) _ _ t k (
          or-Post bad Same (ltb 256 (byte p.1 1) || not (is_valid_port (byte p.1 2))) _ _ t
            (counted Counter.framing_errors t k)
            (bind-Post bad Same Same
              ((if ltb 0 (byte p.1 1) then receive_bytes (byte p.1 1) 1000 else pure (p.0, [])) t) _
              (or-Post bad Same (ltb 0 (byte p.1 1)) _ _ t (bytes-Same (byte p.1 1) 1000 t k) k)
              (λ q u m. handled-Same (byte p.1 2) (byte p.1 0) q u m))))

  frame-Same : (start : ℕ) (s : System) → P s.link → Post bad Same (receive_frame start s)
  unfolding receive_frame
  frame-Same start s h = or-Post bad Same (start == v2_start) _ _ s (v2-Same s h) (
      or-Post bad Same (start == cmd_start) _ _ s (legacy-Same s h)
        (counted Counter.framing_errors s h))

  count-Same : (ret : ℤ) (s : System) → P s.link → Post bad Same (count_received ret s)
  count-Same ret s h = elim (Bool-cases (is_received ret)) [
    | inl e ↦ rw e (counted Counter.rx_frames s h)
    | inr e ↦ rw e h
  ]

  pub started-Same : (s : System) → P s.link → Post bad Same (receive_started s)
  unfolding receive_started
  started-Same s h =
      bind-Post bad Same Same (receive_bytes 1 500 s) _ (bytes-Same 1 500 s h) (λ p t k.
        or-Post bad Same (p.0 ==ℤ neg etimedout || p.0 ==ℤ neg eagain) _ _ t k (
          or-Post bad Same (is_neg p.0) _ _ t k (
            bind-Post bad Same Same (receive_frame (byte p.1 0) t) _ (frame-Same (byte p.1 0) t k)
              (λ a u m. count-Same a u m))))
