-- ===== src/Link/Tests/Runs.antt =====
-- Whole calls: a request with its answer, the start of a session and its end.
use libraspike_art.Base.{
  ◌≡◌, refl, [], ◌∷◌, some, none, true, false, ℤ, pos, Outcome, done, blocked, fault,
}
use libraspike_art.Wire.Word.{get_u32}
use libraspike_art.Wire.Command.{cmd_ack, cmd_link_hello}
use libraspike_art.Com.Fd.{bytes, write_all_fd, write_loop, write_round, write_fd, wait_fd}
use libraspike_art.Com.Usb.{
  normal, usb_send, com_send, com_flush, usb_flush, com_close, usb_close, flush_buffer_locked,
}
use libraspike_art.Com.Tests.{moves, os_with, descriptor}
use libraspike_art.Link.State.{stats_increment}
use libraspike_art.Link.Ports.{is_valid_port, get_device, next_sequence, reset_port_state}
use libraspike_art.Link.Process.{process_command, process_ack, dispatch}
use libraspike_art.Link.System.{System, Command, handles, leaves, run_other, run_others, yield}
use libraspike_art.Link.Send.{v2_frame, send_v2_frame, send_frame}
use libraspike_art.Link.Request.{
  begin_request, wait_for_ack, attempt_loop, finish_request, request_at,
}
use libraspike_art.Link.Request.Outcomes.{request_at-ends}
use libraspike_art.Link.Lifecycle.{Version, prot_init, wait_receivers, prot_shutdown}
use libraspike_art.Link.Lifecycle.Safety.{Down, prot_shutdown-Down}
use libraspike_art.Link.Tests.{session, on_line}

-- The receiver handles the acknowledgement of request 6 while the caller waits.
abbrev ack : Command
ack = record {
  port = 0;
  cmd = cmd_ack;
  flags = 0;
  sequence = 6;
  session = 9;
  payload = 44 ∷ 0 ∷ 0 ∷ 0 ∷ 1 ∷ 0 ∷ 0 ∷ 0 ∷ [];
}

abbrev asking : System
asking =
    on_line (moves 64 ∷ []) [] []
      (record { others = []; outcome = 0 } ∷ record { others = handles ack ∷ []; outcome = 0 } ∷ [])

abbrev pub after : Outcome System ℤ → System → System
after (done ret s) default = s
after blocked default = default
after fault default = default

abbrev asked : Outcome System ℤ
asked = request_at 0 0 44 (bytes (50 ∷ [])) asking

request_at-ends_example : ((after asked asking).link.ports 0).pending ≡ false
unfolding request_at next_sequence begin_request attempt_loop yield run_others run_other
    process_command dispatch process_ack get_device is_valid_port send_frame send_v2_frame v2_frame
    com_send usb_send com_flush usb_flush flush_buffer_locked write_all_fd write_loop write_round
    write_fd wait_fd wait_for_ack finish_request stats_increment get_u32
request_at-ends_example =
    request_at-ends 0 0 44 (bytes (50 ∷ [])) asking (after asked asking) (pos 1) refl

-- The handshake, the hello of session 9 and its magic bytes are on the line.
abbrev pub fresh : System
fresh = record {
  line = record {
    os =
        os_with (moves 2 ∷ moves 1 ∷ moves 1 ∷ moves 3 ∷ moves 1 ∷ moves 3 ∷ moves 12 ∷ [])
          (0xAE
            ∷ 0xCE
            ∷ 1
            ∷ 0
            ∷ 0
            ∷ 0xEA
            ∷ cmd_link_hello
            ∷ 12
            ∷ 255
            ∷ (2 ∷ 1 ∷ 240 ∷ 0 ∷ 9 ∷ 0 ∷ 0 ∷ 0 ∷ 0 ∷ 0 ∷ 0 ∷ 0 ∷ []))
          [];
    buffer = [];
    mode = normal;
  };
  link = record session {
    status = none;
    desc = none;
    handshake_complete = false;
    synchronization_initialized = false;
    session_id = 0;
  };
  turns = [];
}

abbrev pub version : Version
version = record { major = 1; minor = 0; patch = 0 }

abbrev started : Outcome System ℤ
started = prot_init version true (some descriptor) fresh

-- A receiver leaves while `raspike_prot_shutdown` waits.
abbrev receiving : System
receiving = record (on_line [] [] [] (record { others = leaves ∷ []; outcome = 0 } ∷ [])) {
  link = record session { active_receivers = 1 };
}

prot_shutdown-Down_example : Down (pos 0) (after (prot_shutdown receiving) receiving)
unfolding prot_shutdown wait_receivers run_others run_other reset_port_state com_flush usb_flush
    flush_buffer_locked com_close usb_close
prot_shutdown-Down_example =
    prot_shutdown-Down receiving (after (prot_shutdown receiving) receiving) (pos 0) refl
