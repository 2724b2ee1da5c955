-- ===== src/Link/Receive.antt =====
-- The frames that are received, src/raspike_protocol.c, lines 696 to 815.
pub mod Balance
pub mod Calm
pub mod Keeps
pub mod Checked
pub mod Frames
pub mod Legacy
pub mod Corrupted
pub mod Whole
use libraspike_art.Base.{
  ℕ, zero, suc, ◌+◌, ◌-◌, ◌&&◌, ◌||◌, not, List, [], ◌∷◌, ◌++◌, Option, none, some, Bool, true,
  false, ltb, ◌==◌, if◌then◌else◌, length, drop, take, ℤ, pos, negsuc, neg, is_neg, ◌==ℤ◌, Outcome,
  Action, done, blocked, fault, within, pure, ◌>>=◌, ◌>>◌, get, min,
}
use libraspike_art.Base.Errno.{
  einval, eagain, estale, enomsg, eproto, ebadmsg, emsgsize, eprotonosupport, etimedout, enotconn,
}
use libraspike_art.Wire.Word.{byte, get_u16, get_u32}
use libraspike_art.Wire.Crc.{crc16}
use libraspike_art.Wire.Layout.{
  cmd_start, v2_start, v2_version, v2_max_payload, v2_header_size, v2_crc_size, v2_offset_version,
  v2_offset_flags, v2_offset_cmd, v2_offset_port, v2_offset_size, v2_offset_sequence,
  v2_offset_session, v2_offset_payload, protocol_bufmax,
}
use libraspike_art.Com.Usb.{com_receive_timeout}
use libraspike_art.Link.State.{Link, Counter, stats_increment}
use libraspike_art.Link.Ports.{is_valid_port}
use libraspike_art.Link.Process.{process_command}
use libraspike_art.Link.System.{is_null, System, on_desc, on_link, update_link}

abbrev pub frame_timeout_ms : ℕ
frame_timeout_ms = 1000

-- `raspike_com_receive_timeout` on `fgDesc`: the result and the bytes stored.
unfoldable pub receive_bytes : ℕ → ℕ → Action System (ℤ × List ℕ)
unfolding com_receive_timeout
receive_bytes size timeout_ms = on_desc (λ d. com_receive_timeout d size timeout_ms)

unfoldable pub receive_legacy_frame : Action System ℤ
unfolding receive_bytes process_command is_valid_port stats_increment
receive_legacy_frame = do
  (ret, header) ← receive_bytes 3 frame_timeout_ms
  let cmd = byte header 0
  let size = byte header 1
  let port = byte header 2
  if is_neg ret
      then pure ret
      else if ltb protocol_bufmax size || not (is_valid_port port)
      then (do update_link (stats_increment Counter.framing_errors); pure (neg eproto))
      else (do
        (ret', payload) ←
            (if ltb 0 size then receive_bytes size frame_timeout_ms else pure (ret, []))
        if is_neg ret' then pure ret' else (do
          update_link (stats_increment Counter.rx_legacy_frames)
          s ← get
          on_link (process_command port cmd 0 0 s.link.session_id payload)))

-- `discard_receive_bytes`: at most `fuel` chunks.
unfoldable pub discard_receive_bytes : ℕ → ℕ → Action System ℤ
unfolding receive_bytes
discard_receive_bytes zero size = λ s. blocked
discard_receive_bytes (suc fuel) size =
    let chunk = receive_bytes (if ltb size 64 then size else 64) frame_timeout_ms in
    let more = λ (p : ℤ × List ℕ).
      (if is_neg p.0 then pure p.0 else discard_receive_bytes fuel (size - length p.1)) in
    if ltb 0 size then (chunk >>= more) else pure (pos 0)

-- From the check sum on. `frame` is the whole frame, `size` the size in its header.
unfoldable pub check_v2_frame : List ℕ → ℕ → Action System ℤ
unfolding get_u16 get_u32 crc16 process_command stats_increment
check_v2_frame frame size =
    let crc_offset = v2_offset_payload + size in
    let received_crc = get_u16 (drop crc_offset frame) in
    let calculated_crc = crc16 (take (v2_header_size - 1 + size) (drop 1 frame)) in
    if not (received_crc == calculated_crc)
    then (do update_link (stats_increment Counter.crc_errors); pure (neg ebadmsg))
    else on_link (
        process_command (byte frame v2_offset_port) (byte frame v2_offset_cmd)
          (byte frame v2_offset_flags) (get_u32 (drop v2_offset_sequence frame))
          (get_u32 (drop v2_offset_session frame)) (take size (drop v2_offset_payload frame)))

-- The frame is refused by its header: the rest is dropped, and the frame counted as an error.
unfoldable pub refuse_v2_frame : ℕ → ℕ → Action System ℤ
unfolding discard_receive_bytes stats_increment
refuse_v2_frame size code = do
  discarded ← discard_receive_bytes (size + v2_crc_size) (size + v2_crc_size)
  update_link (stats_increment Counter.framing_errors)
  pure (neg code)

-- From the header on.
unfoldable pub read_v2_frame : List ℕ → Action System ℤ
unfolding receive_bytes check_v2_frame refuse_v2_frame
read_v2_frame header =
    let size = byte (v2_start ∷ header) v2_offset_size in
    if not (byte (v2_start ∷ header) v2_offset_version == v2_version)
    then refuse_v2_frame size eprotonosupport
    else if ltb v2_max_payload size
    then refuse_v2_frame size emsgsize
    else (do
      (ret, rest) ← receive_bytes (size + v2_crc_size) frame_timeout_ms
      if is_neg ret then pure ret else check_v2_frame (v2_start ∷ (header ++ rest)) size)

unfoldable pub receive_v2_frame : Action System ℤ
unfolding receive_bytes read_v2_frame
receive_v2_frame = do
  (ret, header) ← receive_bytes (v2_header_size - 1) frame_timeout_ms
  if is_neg ret then pure ret else read_v2_frame header

-- By the start byte.
unfoldable pub receive_frame : ℕ → Action System ℤ
unfolding receive_v2_frame receive_legacy_frame stats_increment
receive_frame start =
    if start == v2_start
    then receive_v2_frame
    else if start == cmd_start
    then receive_legacy_frame
    else (do update_link (stats_increment Counter.framing_errors); pure (neg eagain))

abbrev is_received : ℤ → Bool
is_received result = result ==ℤ pos 0 || result ==ℤ neg enomsg || result ==ℤ neg estale

abbrev count_received : ℤ → Action System ℤ
count_received result s =
    if is_received result
    then done result (record s { link = stats_increment Counter.rx_frames s.link })
    else done result s

-- The label `done`: the receiver leaves. It may wake `raspike_prot_shutdown`.
abbrev leave : Link → Link
leave l = record l { active_receivers = l.active_receivers - 1 }

abbrev enter : Link → Link
enter l = record l { active_receivers = l.active_receivers + 1 }

unfoldable pub receive_started : Action System ℤ
unfolding receive_bytes receive_frame stats_increment
receive_started = do
  (ret, start) ← receive_bytes 1 500
  if ret ==ℤ neg etimedout || ret ==ℤ neg eagain
      then pure (pos 0)
      else if is_neg ret
      then pure ret
      else (receive_frame (byte start 0) >>= count_received)

-- By itself: other threads have no turn in it, although it blocks while it reads the line.
unfoldable pub prot_receive : Action System ℤ
unfolding receive_started
prot_receive s =
    if s.link.stop_communication || is_null s.link.desc || not s.link.handshake_complete
    then done (neg enotconn) s
    else (do update_link enter; result ← receive_started; update_link leave; pure result) s
