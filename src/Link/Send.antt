-- ===== src/Link/Send.antt =====
-- The frames that are sent, src/raspike_protocol.c, lines 166 to 233 and 464 to 475.
pub mod Effect
pub mod Framed
pub mod Keeps
use libraspike_art.Base.{
  ℕ, ◌&&◌, ◌||◌, not, List, [], ◌∷◌, ◌++◌, Option, none, some, Bool, true, false, ltb,
  if◌then◌else◌, length, ℤ, pos, negsuc, neg, is_neg, Action, done, pure, ◌>>=◌,
}
use libraspike_art.Base.Errno.{einval, enotconn}
use libraspike_art.Wire.Word.{u8, put_u16, put_u32}
use libraspike_art.Wire.Crc.{crc16}
use libraspike_art.Wire.Layout.{
  cmd_start, v2_start, v2_version, v2_max_payload, v2_flag_high_priority,
}
use libraspike_art.Com.Fd.{Buf, null, bytes}
use libraspike_art.Com.Usb.{com_send, com_flush, buf_size}
use libraspike_art.Link.State.{Counter, stats_increment}
use libraspike_art.Link.Ports.{is_valid_port, next_sequence}
use libraspike_art.Link.System.{is_null, System, on_desc}

-- `size > limit` and `size > 0 && !payload`
abbrev pub exceeds : ℤ → ℕ → Bool
exceeds (pos n) limit = ltb limit n
exceeds (negsuc n) limit = false

abbrev pub lacks_data : Buf → Bool
lacks_data (null size) = exceeds size 0
lacks_data (bytes payload) = false

-- What is copied from `payload`: nothing, if the size is 0.
abbrev pub contents : Buf → List ℕ
contents (null size) = []
contents (bytes payload) = payload

unfoldable pub legacy_frame : ℕ → ℕ → List ℕ → List ℕ
legacy_frame port cmd payload = cmd_start ∷ cmd ∷ u8 (length payload) ∷ port ∷ payload

unfoldable pub send_legacy_frame : ℕ → ℕ → Buf → Action System ℤ
unfolding legacy_frame is_valid_port com_send
send_legacy_frame port cmd payload =
    if not (is_valid_port port)
      || is_neg (buf_size payload)
      || exceeds (buf_size payload) 255
      || lacks_data payload
    then pure (neg einval)
    else on_desc (λ d. com_send d (bytes (legacy_frame port cmd (contents payload))))

-- A frame of version 2 from its second byte to the end of the payload: the input of the check sum.
-- The fields adjoin, so that the array filled at `RP_V2_OFFSET_…` is this list.
unfoldable pub v2_body : ℕ → ℕ → ℕ → ℕ → ℕ → List ℕ → List ℕ
unfolding put_u32
v2_body port cmd flags sequence session payload =
    v2_version
    ∷ flags
    ∷ cmd
    ∷ port
    ∷ u8 (length payload)
    ∷ (put_u32 sequence ++ (put_u32 session ++ payload))

unfoldable pub v2_frame : ℕ → ℕ → ℕ → ℕ → ℕ → List ℕ → List ℕ
unfolding v2_body put_u16 crc16
v2_frame port cmd flags sequence session payload =
    let body = v2_body port cmd flags sequence session payload in
    v2_start ∷ (body ++ put_u16 (crc16 body))

unfoldable pub send_v2_frame : ℕ → ℕ → Buf → ℕ → ℕ → Action System ℤ
unfolding v2_frame is_valid_port com_send
send_v2_frame port cmd payload sequence flags s =
    if not (is_valid_port port)
      || is_neg (buf_size payload)
      || exceeds (buf_size payload) v2_max_payload
      || lacks_data payload
    then done (neg einval) s
    else on_desc
        (λ d.
          com_send d
            (bytes (v2_frame port cmd flags sequence s.link.session_id (contents payload))))
        s

-- The flush after a frame, if it is asked for and the frame was taken.
abbrev pub flush_after : Bool → ℤ → Action System ℤ
flush_after flush_now ret =
    if not (is_neg ret) && flush_now
    then (on_desc com_flush >>= λ flushed. pure (if is_neg flushed then flushed else ret))
    else pure ret

abbrev pub count_frame : ℤ → Action System ℤ
count_frame ret s =
    if is_neg ret
    then done ret s
    else done ret (record s { link = stats_increment Counter.tx_frames s.link })

unfoldable pub send_frame : ℕ → ℕ → Buf → ℕ → ℕ → Bool → Action System ℤ
unfolding send_v2_frame send_legacy_frame com_flush stats_increment
send_frame port cmd payload sequence flags flush_now s =
    if is_null s.link.desc || s.link.stop_communication
    then done (neg enotconn) s
    else ((if s.link.use_protocol_v2
            then send_v2_frame port cmd payload sequence flags
            else send_legacy_frame port cmd payload)
          >>= flush_after flush_now
          >>= count_frame)
        s

-- The arguments are evaluated first: a call takes a sequence number also if it sends nothing.
unfoldable pub prot_send : ℕ → ℕ → Buf → Action System ℤ
unfolding send_frame next_sequence
prot_send port cmd payload s =
    let (l, sequence) = next_sequence s.link in
    send_frame port cmd payload sequence 0 false (record s { link = l })

unfoldable pub prot_send_priority : ℕ → ℕ → Buf → Action System ℤ
unfolding send_frame next_sequence
prot_send_priority port cmd payload s =
    let (l, sequence) = next_sequence s.link in
    send_frame port cmd payload sequence v2_flag_high_priority true (record s { link = l })
