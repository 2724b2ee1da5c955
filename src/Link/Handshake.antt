-- ===== src/Link/Handshake.antt =====
-- The handshake, src/raspike_protocol.c, lines 235 to 340.
pub mod Keeps
use libraspike_art.Base.{
  ℕ, zero, suc, ◌+◌, ◌-◌, ◌&&◌, ◌||◌, not, List, [], ◌∷◌, true, ltb, ◌==◌, if◌then◌else◌, length,
  drop, bit_and, ℤ, pos, neg, is_neg, ◌==ℤ◌, Action, done, blocked, pure, ◌>>=◌, ◌>>◌,
}
use libraspike_art.Base.Errno.{eagain, etimedout, eproto, eprotonosupport}
use libraspike_art.Wire.Word.{byte, get_u16, get_u32}
use libraspike_art.Wire.Layout.{
  cmd_init, cmd_init_magic, cmd_start, v2_version, v2_hello_payload_size, v2_cap_framing, port_none,
}
use libraspike_art.Wire.Layout.Status
use libraspike_art.Wire.Command.{cmd_link_hello}
use libraspike_art.Com.Fd.{bytes}
use libraspike_art.Com.Usb.{com_send, com_flush, com_discard_input}
use libraspike_art.Link.State.{Link}
use libraspike_art.Link.System.{System, on_desc, update_link}
use libraspike_art.Link.Receive.{receive_bytes}

abbrev pub handshake_timeout_ms : ℕ
handshake_timeout_ms = 1500

abbrev pub handshake_attempts : ℕ
handshake_attempts = 5

abbrev pub handshake_retry_delay_ms : ℕ
handshake_retry_delay_ms = 100

-- The milliseconds since `start`, by the clock as it was last read.
abbrev elapsed_ms : ℕ → System → ℕ
elapsed_ms start s = s.line.os.now - start

-- The loop of `scan_for_byte`. Each time round it uses a round of the script, so that `fuel` rounds
-- are enough if the script has fewer.
unfoldable pub scan_loop : ℕ → ℕ → ℕ → ℕ → Action System ℤ
unfolding receive_bytes
scan_loop zero target timeout_ms start s = blocked
scan_loop (suc fuel) target timeout_ms start s =
    let again = scan_loop fuel target timeout_ms start in
    if ltb (elapsed_ms start s) timeout_ms
    then (receive_bytes 1 100 >>= λ (p : ℤ × List ℕ).
          (if (p.0 ==ℤ pos 1) && (byte p.1 0 == target)
            then pure (pos 0)
            else if is_neg p.0 && not (p.0 ==ℤ neg etimedout) && not (p.0 ==ℤ neg eagain)
            then pure p.0
            else again))
        s
    else done (neg etimedout) s

unfoldable pub scan_for_byte : ℕ → ℕ → Action System ℤ
unfolding scan_loop
scan_for_byte target timeout_ms s =
    scan_loop (suc (length s.line.os.script)) target timeout_ms s.line.os.now s

abbrev pub set_version : List ℕ → Link → Link
set_version v l = record l {
  version_major = byte v 0;
  version_minor = byte v 1;
  version_patch = byte v 2;
}

-- The answer to the start bytes: the magic byte, and three bytes of version.
unfoldable pub read_version : Action System ℤ
unfolding receive_bytes
read_version = do
  (ret, magic) ← receive_bytes 1 500
  if is_neg ret
      then pure ret
      else if not (byte magic 0 == cmd_init_magic)
      then pure (neg eproto)
      else (do
        (ret', version) ← receive_bytes 3 500
        if is_neg ret' then pure ret' else (do update_link (set_version version); pure (pos 0)))

unfoldable pub perform_handshake_once : Action System ℤ
unfolding scan_for_byte read_version com_send com_flush
perform_handshake_once = do
  sent ← on_desc (λ d. com_send d (bytes (cmd_init ∷ cmd_init_magic ∷ [])))
  if is_neg sent then pure sent else (do
    flushed ← on_desc com_flush
    if is_neg flushed then pure flushed else (do
      found ← scan_for_byte cmd_init handshake_timeout_ms
      if is_neg found then pure found else read_version))

-- `nanosleep`: the clock moves on. Other threads have no turn in `raspike_prot_init`, nor in this sleep.
abbrev sleep_ms : ℕ → Action System (Unit {0})
sleep_ms ms s =
    done tt
      (record s { line = record s.line { os = record s.line.os { now = s.line.os.now + ms } } })

-- The attempts, `left` of them to go. What `discard_input` returns is overwritten by the attempt.
unfoldable pub handshake_loop : ℕ → ℤ → Action System ℤ
unfolding perform_handshake_once com_discard_input
handshake_loop zero last_error = pure last_error
handshake_loop (suc left) last_error =
    let next = λ (result : ℤ). handshake_loop left result in
    do
      discarded ← on_desc com_discard_input
      result ← perform_handshake_once
      if result ==ℤ pos 0
          then pure (pos 0)
          else if ltb 0 left
          then (do sleep_ms handshake_retry_delay_ms; next result)
          else next result

unfoldable pub perform_handshake : Action System ℤ
unfolding handshake_loop
perform_handshake = handshake_loop handshake_attempts (neg etimedout)

-- The announcement of version 2, once its payload is there.
unfoldable pub accept_hello : List ℕ → Action System ℤ
unfolding get_u16 get_u32
accept_hello payload =
    let capabilities = byte payload 1 in
    let max_payload = get_u16 (drop 2 payload) in
    let session = get_u32 (drop 4 payload) in
    if not (byte payload 0 == v2_version) then pure (neg eprotonosupport) else (do
      update_link (λ l. record l { capabilities = capabilities; session_id = session })
      if bit_and capabilities v2_cap_framing == 0 || session == 0 || ltb max_payload Status.size
          then pure (neg eprotonosupport)
          else (do update_link (λ l. record l { use_protocol_v2 = true }); pure (pos 0)))

unfoldable pub receive_legacy_hello : Action System ℤ
unfolding scan_for_byte receive_bytes accept_hello
receive_legacy_hello = do
  found ← scan_for_byte cmd_start 2000
  if is_neg found then pure found else (do
    (ret, header) ← receive_bytes 3 1000
    if is_neg ret
        then pure ret
        else if not (byte header 0 == cmd_link_hello)
            || not (byte header 2 == port_none)
            || not (byte header 1 == v2_hello_payload_size)
        then pure (neg eproto)
        else (do
          (ret', payload) ← receive_bytes v2_hello_payload_size 1000
          if is_neg ret' then pure ret' else accept_hello payload))
