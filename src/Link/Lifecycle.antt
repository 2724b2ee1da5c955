-- ===== src/Link/Lifecycle.antt =====
-- `raspike_prot_init` and `raspike_prot_shutdown`, src/raspike_protocol.c, lines 342 to 447.
pub mod Fresh
pub mod Negotiated
pub mod Numbered
pub mod Safety
use libraspike_art.Base.{
  ℕ, zero, suc, ◌+◌, ◌&&◌, ◌||◌, not, List, [], ◌∷◌, Option, none, some, Bool, true, false, ltb,
  ◌==◌, if◌then◌else◌, ℤ, pos, neg, is_neg, Outcome, Action, done, blocked, fault, within, pure,
  ◌>>=◌, ◌>>◌, get,
}
use libraspike_art.Base.Errno.{einval, ebusy, enomem, enotconn, eprotonosupport}
use libraspike_art.Com.Usb.{Descriptor, usb_set_mode, com_flush, com_close}
use libraspike_art.Link.State.{Link, LinkStats, PortDevice}
use libraspike_art.Link.Ports.{init_port_device, reset_port_state}
use libraspike_art.Link.Process.{zero_status, zero_telemetry}
use libraspike_art.Link.System.{System, Turn, on_desc, on_link, run_others, update_link}
use libraspike_art.Link.Handshake.{perform_handshake, receive_legacy_hello}

-- `SPIKE_EXPECTED_VERSION_MAJOR`, `_MINOR` and `_PATCH`, which the build sets.
pub record Version : Type 0 where
  pub major : ℕ
  pub minor : ℕ
  pub patch : ℕ

abbrev pub no_stats : LinkStats
no_stats = record {
  tx_frames = 0;
  rx_frames = 0;
  rx_legacy_frames = 0;
  crc_errors = 0;
  framing_errors = 0;
  session_errors = 0;
  request_timeouts = 0;
  request_retries = 0;
  stale_acks = 0;
}

-- Up to the `calloc`.
abbrev pub start_session : Descriptor → Link → Link
start_session desc l = record l {
  desc = some desc;
  stop_communication = false;
  handshake_complete = false;
  use_protocol_v2 = false;
  session_id = 0;
  capabilities = 0;
  active_receivers = 0;
  next_sequence = 1;
  stats = no_stats;
  telemetry = zero_telemetry;
}

-- `free(fgStatus)` and `fgDesc = NULL`, on each failure.
abbrev pub give_up : Link → Link
give_up l = record l { status = none; desc = none }

unfoldable pub init_ports : Link → Link
unfolding reset_port_state
init_ports l =
    if l.synchronization_initialized
    then reset_port_state (neg enotconn) true l
    else record l { ports = λ _. init_port_device; synchronization_initialized = true }

abbrev matches : Version → Link → Bool
matches v l =
    (l.version_major == v.major) && (l.version_minor == v.minor) && (l.version_patch == v.patch)

abbrev fail : ℤ → Action System ℤ
fail code = do update_link give_up; pure code

-- From `perform_handshake` on.
unfoldable pub connect : Version → Action System ℤ
unfolding perform_handshake receive_legacy_hello usb_set_mode
connect version = do
  ret ← perform_handshake
  if is_neg ret then fail ret else (do
    s ← get
    if not (matches version s.link) then fail (neg eprotonosupport) else (do
      hello ← receive_legacy_hello
      if is_neg hello then fail hello else (do
        update_link (λ l. record l { handshake_complete = true })
        mode ← within System.line (λ c s. record s { line = c }) (usb_set_mode (pos 0))
        pure (pos 0))))

-- `allocated`: whether `calloc` finds memory. `busy` is `fgDesc`.
unfoldable pub init_with : Version → Bool → Descriptor → Option Descriptor → Action System ℤ
unfolding connect init_ports
init_with version allocated desc (some busy) s = done (neg ebusy) s
init_with version allocated desc none s =
    let started = start_session desc s.link in
    if not allocated
    then done (neg enomem) (record s { link = record started { status = none; desc = none } })
    else connect version
        (record s { link = init_ports (record started { status = some zero_status }) })

unfoldable pub prot_init : Version → Bool → Option Descriptor → Action System ℤ
unfolding init_with
prot_init version allocated none s = done (neg einval) s
prot_init version allocated (some desc) s = init_with version allocated desc s.link.desc s

-- `while (fgActiveReceivers > 0)`: the receivers leave in turns of theirs.
unfoldable pub wait_receivers : List Turn → Action System (Unit {0})
unfolding run_others
wait_receivers [] s = if ltb 0 s.link.active_receivers then blocked else done tt s
wait_receivers (t ∷ turns) s =
    let again = wait_receivers turns in
    if ltb 0 s.link.active_receivers
    then (on_link (run_others t.others) >>= λ _. again) (record s { turns = turns })
    else done tt s

-- `desc` is what `fgDesc` was.
abbrev flush_and_close : Option Descriptor → Action System (Unit {0})
flush_and_close none s = done tt s
flush_and_close (some d) s =
    within System.line (λ c s. record s { line = c })
      (com_flush (some d) >>= λ _. com_close (some d) >>= λ _. pure tt) s

abbrev end_session : Link → Link
end_session l = record l {
  status = none;
  handshake_complete = false;
  use_protocol_v2 = false;
  session_id = 0;
}

unfoldable pub prot_shutdown : Action System ℤ
unfolding wait_receivers reset_port_state com_flush com_close
prot_shutdown = do
  update_link (λ l. record l { stop_communication = true })
  waiting ← get
  wait_receivers waiting.turns
  s ← get
  let desc = s.link.desc
  update_link (λ l. reset_port_state (neg enotconn) true (record l { desc = none }))
  flush_and_close desc
  update_link end_session
  pure (pos 0)
