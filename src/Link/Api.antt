-- ===== src/Link/Api.antt =====
-- The functions over the session that the devices and the user call: the waits for a port's command,
-- the drive extension, the telemetry and the counters, src/raspike_protocol.c, lines 449 to 452 and
-- 817 to 902.
pub mod Keeps
pub mod Wait
use libraspike_art.Base.{
  ℕ, ◌&&◌, ◌||◌, not, List, [], ◌∷◌, ◌++◌, Option, none, some, Bool, true, false, leb, ◌==◌,
  if◌then◌else◌, drop, ℤ, pos, neg, is_neg, Action, done, blocked, pure, ◌>>=◌, crash,
}
use libraspike_art.Base.Errno.{einval, eintr, etimedout, eagain}
use libraspike_art.Wire.Word.{byte, put_u32, get_u32}
use libraspike_art.Wire.Layout.{port_none, v2_version}
use libraspike_art.Wire.Layout.Status
use libraspike_art.Wire.Layout.Runtime
use libraspike_art.Wire.Command.{cmd_drive_config, cmd_drive_command, cmd_runtime_fault}
use libraspike_art.Com.Fd.{null, bytes}
use libraspike_art.Link.State.{Link, device_port_count}
use libraspike_art.Link.System.{is_null, System, Turn, on_link, run_others}
use libraspike_art.Link.Send.{prot_send_priority}
use libraspike_art.Link.Request.{request}

-- `fgStatus->ports[port].cmd`
abbrev pub port_cmd : List ℕ → ℕ → ℕ
port_cmd status port = byte status (Status.cmd port)

abbrev on_status : {A : Type 0} → Option (List ℕ) → (List ℕ → Action System A) → Action System A
on_status none f = crash
on_status (some status) f = f status

-- The loop of `raspike_wait_port_cmd_change`.
unfoldable pub wait_port_loop : List Turn → ℕ → ℕ → Action System ℤ
unfolding run_others
wait_port_loop [] port wait_cmd s =
    on_status s.link.status
      (λ status. if port_cmd status port == wait_cmd then pure (pos 0) else (λ s. blocked)) s
wait_port_loop (t ∷ turns) port wait_cmd s =
    let again = wait_port_loop turns port wait_cmd in
    let woken = on_link (run_others t.others) >>= λ _.
    (if t.outcome == etimedout
      then pure (neg etimedout)
      else if not (t.outcome == 0) && not (t.outcome == eintr)
      then pure (neg t.outcome)
      else again) in
    on_status s.link.status
      (λ status s.
        if port_cmd status port == wait_cmd
        then done (pos 0) s
        else woken (record s { turns = turns }))
      s

unfoldable pub wait_port_cmd_change : ℕ → ℕ → Action System ℤ
unfolding wait_port_loop
wait_port_cmd_change port wait_cmd s =
    if leb device_port_count port || is_null s.link.status
    then done (neg einval) s
    else wait_port_loop s.turns port wait_cmd s

unfoldable pub port_com_change_if_needed : ℕ → ℕ → Action System ℤ
unfolding wait_port_cmd_change prot_send_priority
port_com_change_if_needed port wait_cmd s =
    if leb device_port_count port || is_null s.link.status
    then done (neg einval) s
    else on_status s.link.status
        (λ status. if port_cmd status port == wait_cmd then pure (pos 0) else (do
          sent ← prot_send_priority port wait_cmd (null (pos 0))
          if is_neg sent then pure sent else wait_port_cmd_change port wait_cmd))
        s

unfoldable pub drive_configure : Action System ℤ
unfolding request
drive_configure = request port_none cmd_drive_config (null (pos 0))

-- `command` is the bytes of the packed struct `RPRealtimeDriveCommand`, or null.
unfoldable pub drive_send_command : Option (List ℕ) → Action System ℤ
unfolding prot_send_priority
drive_send_command none = pure (neg einval)
drive_send_command (some command) = prot_send_priority port_none cmd_drive_command (bytes command)

unfoldable pub runtime_inject_fault : ℕ → ℕ → Action System ℤ
unfolding request put_u32
runtime_inject_fault fault_mask duration_cycles =
    request port_none cmd_runtime_fault (bytes (put_u32 fault_mask ++ put_u32 duration_cycles))

-- The result is positive on errors here, and the bytes go through the pointer.
unfoldable pub runtime_get_telemetry : Bool → Link → ℤ × Option (List ℕ)
unfolding get_u32
runtime_get_telemetry false l = (pos einval, none)
runtime_get_telemetry true l =
    let sequence = get_u32 (drop Runtime.sequence l.telemetry) in
    (if sequence == 0 then pos eagain else pos 0, some l.telemetry)

-- `RasPikeLinkStats`, without its reserved field.
pub record LinkReport : Type 0 where
  pub session_id : ℕ
  pub protocol_version : ℕ
  pub capabilities : ℕ
  pub tx_frames : ℕ
  pub rx_frames : ℕ
  pub crc_errors : ℕ
  pub framing_errors : ℕ
  pub session_errors : ℕ
  pub request_timeouts : ℕ
  pub request_retries : ℕ
  pub stale_acks : ℕ

abbrev report : Link → LinkReport
report l = record {
  session_id = l.session_id;
  protocol_version = if l.use_protocol_v2 then v2_version else 1;
  capabilities = l.capabilities;
  tx_frames = l.stats.tx_frames;
  rx_frames = l.stats.rx_frames;
  crc_errors = l.stats.crc_errors;
  framing_errors = l.stats.framing_errors;
  session_errors = l.stats.session_errors;
  request_timeouts = l.stats.request_timeouts;
  request_retries = l.stats.request_retries;
  stale_acks = l.stats.stale_acks;
}

unfoldable pub link_get_stats : Bool → Link → ℤ × Option LinkReport
link_get_stats false l = (pos einval, none)
link_get_stats true l = (pos 0, some (report l))
