-- ===== src/Link/Tests/Received.antt =====
-- A legacy frame and a frame of version 2 that come to `raspike_prot_receive`.
use libraspike_art.Base.{◌≡◌, refl, [], ◌∷◌, ◌++◌, neg, arith}
use libraspike_art.Wire.Word.{get_u16}
use libraspike_art.Wire.Command.{cmd_ack}
use libraspike_art.Com.Fd.{wait_fd, read_fd, read_some_fd}
use libraspike_art.Com.Usb.{com_receive_timeout, receive_loop, receive_round, usb_receive, retry}
use libraspike_art.Com.Tests.{moves, descriptor, descriptor-IsOpen, moves-Prompt}
use libraspike_art.Link.Ports.{is_valid_port}
use libraspike_art.Link.Process.{process_command}
use libraspike_art.Link.Process.Kept.{Kept}
use libraspike_art.Link.System.{System, on_link}
use libraspike_art.Link.Send.{legacy_frame}
use libraspike_art.Link.Receive.{
  receive_bytes, receive_legacy_frame, check_v2_frame, read_v2_frame, receive_v2_frame,
  receive_frame, receive_started, prot_receive,
}
use libraspike_art.Link.Receive.Frames.{received}
use libraspike_art.Link.Receive.Legacy.{receive_legacy_frame-legacy_frame, counted}
use libraspike_art.Link.Receive.Balance.{prot_receive-Kept}
use libraspike_art.Link.Tests.{session, on_line, ack_payload}
use libraspike_art.Link.Tests.Runs.{after}

abbrev legacy_arrives : System
legacy_arrives =
    on_line (moves 3 ∷ moves 8 ∷ []) (cmd_ack ∷ 8 ∷ 2 ∷ (ack_payload ++ (77 ∷ []))) [] []

receive_legacy_frame-legacy_frame_example :
    receive_legacy_frame legacy_arrives
    ≡ on_link (process_command 2 cmd_ack 0 0 9 ack_payload) (
        counted (
          received
            (moves 8)
            []
            (77 ∷ [])
            (received (moves 3) (moves 8 ∷ []) (ack_payload ++ (77 ∷ [])) legacy_arrives)))
unfolding legacy_frame is_valid_port
receive_legacy_frame-legacy_frame_example =
    receive_legacy_frame-legacy_frame 2 cmd_ack ack_payload refl (omega arith) (omega arith)
      descriptor (moves 3) (moves 8) [] (77 ∷ []) descriptor-IsOpen (moves-Prompt 3 3 (omega arith))
      (moves-Prompt 8 8 (omega arith)) legacy_arrives refl refl refl

-- The receiver takes a damaged frame of version 2.
abbrev damaged_arrives : System
damaged_arrives =
    on_line (moves 1 ∷ moves 13 ∷ moves 2 ∷ [])
      (0xEB ∷ 2 ∷ 0 ∷ cmd_ack ∷ 2 ∷ 0 ∷ 5 ∷ 0 ∷ 0 ∷ 0 ∷ 9 ∷ 0 ∷ 0 ∷ 0 ∷ 1 ∷ 1 ∷ []) [] []

prot_receive-Kept_example : Kept session (after (prot_receive damaged_arrives) damaged_arrives).link
unfolding prot_receive receive_started receive_frame receive_v2_frame read_v2_frame check_v2_frame
    receive_bytes com_receive_timeout receive_loop receive_round usb_receive retry read_some_fd
    read_fd wait_fd get_u16
prot_receive-Kept_example =
    prot_receive-Kept damaged_arrives (after (prot_receive damaged_arrives) damaged_arrives)
      (neg 74) refl
