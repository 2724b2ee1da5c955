-- ===== src/Link/Tests.antt =====
-- src/raspike_protocol.c in a session of version 2 with the number 9 in which a request waits at
-- port 2.
pub mod Answered
pub mod Received
pub mod Runs
pub mod Sent
pub mod Waits
use libraspike_art.Base.{
  ℕ, suc, ◌+◌, ◌<◌, ◌≤◌, ◌^◌, ◌==◌, ◌≡◌, ◌≢◌, inl, inr, refl, List, [], ◌∷◌, ◌++◌, Option, some,
  none, Bool, true, false, if◌then◌else◌, length, replicate, ℤ, pos, neg, is_neg, signed32, Outcome,
  done, arith,
}
use libraspike_art.Base.Errno.{estale, enotconn, ebusy, einval, enomem, ebadmsg}
use libraspike_art.Wire.Word.{get_u16, get_u32, put_u16, put_u32}
use libraspike_art.Wire.Crc.{crc16}
use libraspike_art.Wire.Command.{cmd_ack, cmd_mot_pow, cmd_drive_telemetry, cmd_link_hello}
use libraspike_art.Com.Os.{Round}
use libraspike_art.Com.Fd.{Buf, null, bytes}
use libraspike_art.Com.Usb.{Com, Descriptor, normal}
use libraspike_art.Com.Tests.{moves, os_with, descriptor, descriptor-IsOpen, moves-Prompt}
use libraspike_art.Link.State.{Link, LinkStats, PortDevice, Counter, stats_increment}
use libraspike_art.Link.Ports.{no_request, no_device, reset_port_state, get_device, next_sequence}
use libraspike_art.Link.Process.{
  zero_status, zero_telemetry, process_hello_payload, process_ack, process_command,
}
use libraspike_art.Link.Process.Ack.{AckStep, process_ack-AckStep}
use libraspike_art.Link.Process.Foreign.{process_command-foreign}
use libraspike_art.Link.Process.Sessions.{HasStatus, Returns, process_command-Returns}
use libraspike_art.Link.System.{System, Turn, handles, Command, on_link}
use libraspike_art.Wire.Layout.{v2_start}
use libraspike_art.Link.Send.{v2_body, v2_frame}
use libraspike_art.Link.Receive.{prot_receive, check_v2_frame, receive_v2_frame}
use libraspike_art.Link.Receive.Checked.{Sendable}
use libraspike_art.Link.Receive.Whole.{leaves_with, counts_with, prot_receive-v2_frame}
use libraspike_art.Link.Receive.Corrupted.{receive_v2_frame-corrupted}
use libraspike_art.Link.Request.{begin_request, finish_request, request_at}
use libraspike_art.Link.Request.Outcomes.{
  process_ack-finish, process_hello_payload-finish, reset_port_state-finish, request_at-ends,
}
use libraspike_art.Link.Lifecycle.{Version, no_stats, prot_init, prot_shutdown}
use libraspike_art.Link.Lifecycle.Safety.{InitResult, Down, prot_shutdown-Down}

abbrev waiting : PortDevice
waiting = record no_request { pending = true; pending_sequence = 5 }

abbrev pub session : Link
session = record {
  status = some zero_status;
  desc = some descriptor;
  telemetry = zero_telemetry;
  ports = λ i. if i == 2 then waiting else no_request;
  handshake_complete = true;
  stop_communication = false;
  synchronization_initialized = true;
  use_protocol_v2 = true;
  session_id = 9;
  capabilities = 1;
  active_receivers = 0;
  next_sequence = 6;
  version_major = 1;
  version_minor = 0;
  version_patch = 0;
  stats = no_stats;
}

abbrev session-HasStatus : HasStatus session
session-HasStatus = record {
  status_bytes = zero_status;
  allocated = refl;
  status_size = refl;
  telemetry_size = refl;
}

process_command-Returns_example :
    Returns (process_command 2 cmd_drive_telemetry 0 0 9 (replicate 3 0) session)
process_command-Returns_example =
    process_command-Returns session session-HasStatus 2 cmd_drive_telemetry 0 0 9 (replicate 3 0)

process_ack-AckStep_example :
    AckStep 2 5 9 session (process_ack 2 5 9 (put_u32 cmd_mot_pow ++ put_u32 1) session)
process_ack-AckStep_example = process_ack-AckStep 2 5 9 (put_u32 cmd_mot_pow ++ put_u32 1) session

process_command-foreign_example :
    (ret : ℤ) × ((stats : LinkStats) × ((is_neg ret ≡ true)
        × (process_command 2 cmd_ack 0 5 8 (put_u32 3 ++ put_u32 1) session
            ≡ done ret (record session { stats = stats }))))
process_command-foreign_example =
    process_command-foreign 2 cmd_ack 0 5 8 (put_u32 3 ++ put_u32 1) session refl
      (λ e. absurd (omega arith)) (λ e. absurd (omega arith))

-- A hello of session 10.
abbrev hello : List ℕ
hello = 2 ∷ 1 ∷ 0 ∷ 0 ∷ 10 ∷ 0 ∷ 0 ∷ 0 ∷ 0 ∷ 0 ∷ 0 ∷ 0 ∷ []

process_hello_payload-finish_example :
    (((process_hello_payload hello session).ports 2).pending ≡ false)
    × ((finish_request 2 44 5 (pos 0) true (process_hello_payload hello session)).1 ≡ neg estale)
unfolding get_u32
process_hello_payload-finish_example =
    process_hello_payload-finish hello 2 44 5 (pos 0) session refl refl (λ e. absurd (omega arith))
      (λ e. absurd (omega arith)) (omega arith) refl

reset_port_state-finish_example :
    (((reset_port_state (neg enotconn) true session).ports 2).pending ≡ false)
    × ((finish_request 2 44 5 (pos 0) true (reset_port_state (neg enotconn) true session)).1
        ≡ neg enotconn)
reset_port_state-finish_example =
    reset_port_state-finish 2 44 5 (pos 0) (neg enotconn) true session (omega arith) refl

-- The session on a line.
abbrev pub on_line : List Round → List ℕ → List ℕ → List Turn → System
on_line script input output turns = record {
  line = record { os = os_with script input output; buffer = []; mode = normal };
  link = session;
  turns = turns;
}

-- A frame with the command 1, of session 9, with one byte of payload, and its damaged copy.
abbrev damaged : System
damaged =
    on_line (moves 13 ∷ moves 3 ∷ [])
      (((2 ∷ 4 ∷ 1 ∷ []) ++ (7 ∷ 1 ∷ 6 ∷ 0 ∷ 0 ∷ 0 ∷ 9 ∷ 0 ∷ 0 ∷ 0 ∷ 50 ∷ []))
        ++ put_u16 (crc16 ((2 ∷ 4 ∷ 1 ∷ []) ++ (3 ∷ 1 ∷ 6 ∷ 0 ∷ 0 ∷ 0 ∷ 9 ∷ 0 ∷ 0 ∷ 0 ∷ 50 ∷ [])))
        ++ (77 ∷ []))
      [] []

receive_v2_frame-corrupted_example :
    receive_v2_frame damaged
    ≡ done (neg ebadmsg) (record damaged {
      line = record damaged.line { os = record (os_with [] (77 ∷ []) []) { now = 1010 } };
      link = stats_increment Counter.crc_errors session;
    })
unfolding put_u16
receive_v2_frame-corrupted_example =
    receive_v2_frame-corrupted (2 ∷ 4 ∷ 1 ∷ []) (1 ∷ 6 ∷ 0 ∷ 0 ∷ 0 ∷ 9 ∷ 0 ∷ 0 ∷ 0 ∷ 50 ∷ []) 3 7
      (omega arith, (omega arith, (omega arith, tt)))
      (
        omega arith,
        (
          omega arith,
          (
            omega arith,
            (
              omega arith,
              (
                omega arith,
                (omega arith, (omega arith, (omega arith, (omega arith, (omega arith, tt))))),
              ),
            ),
          ),
        ),
      )
      (omega arith) (omega arith) (λ e. absurd (omega arith)) 1 descriptor (moves 13) (moves 3) []
      (77 ∷ []) refl (omega arith) refl refl descriptor-IsOpen (moves-Prompt 13 13 (omega arith))
      (moves-Prompt 3 3 (omega arith)) damaged refl refl refl

-- An acknowledgement of the request that waits at port 2, followed by another byte.
abbrev pub ack_payload : List ℕ
ack_payload = 44 ∷ 0 ∷ 0 ∷ 0 ∷ 1 ∷ 0 ∷ 0 ∷ 0 ∷ []

abbrev ack_arrives : System
ack_arrives =
    on_line (moves 1 ∷ moves 13 ∷ moves 10 ∷ []) (v2_frame 2 cmd_ack 0 5 9 ack_payload ++ (77 ∷ []))
      [] []

prot_receive-v2_frame_example :
    prot_receive ack_arrives
    ≡ leaves_with (
        counts_with (
          on_link (process_command 2 cmd_ack 0 5 9 ack_payload) (record ack_arrives {
            link = record session { active_receivers = 1 };
            line = record ack_arrives.line { os = record (os_with [] (77 ∷ []) []) { now = 1015 } };
          })))
prot_receive-v2_frame_example =
    prot_receive-v2_frame 2 cmd_ack 0 5 9 ack_payload
      (record {
        port_lt = omega arith;
        cmd_lt = omega arith;
        flags_lt = omega arith;
        sequence_lt = omega arith;
        session_lt = omega arith;
        fits = omega arith;
        is_bytes = (
          omega arith,
          (
            omega arith,
            (
              omega arith,
              (omega arith, (omega arith, (omega arith, (omega arith, (omega arith, tt))))),
            ),
          ),
        );
      })
      descriptor (moves 1) (moves 13) (moves 10) [] (77 ∷ []) descriptor-IsOpen
      (moves-Prompt 1 1 (omega arith)) (moves-Prompt 13 13 (omega arith))
      (moves-Prompt 10 10 (omega arith)) ack_arrives refl refl refl refl refl
