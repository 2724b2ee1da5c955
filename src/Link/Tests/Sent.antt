-- ===== src/Link/Tests/Sent.antt =====
-- `send_frame` of src/raspike_protocol.c on a session whose line takes the frame in one round.
use libraspike_art.Base.{◌≡◌, refl, [], ◌∷◌, ◌++◌, false, pos, inr}
use libraspike_art.Com.Fd.{bytes, write_all_fd, write_loop, write_round, write_fd, wait_fd}
use libraspike_art.Com.Usb.{usb_send, com_send}
use libraspike_art.Com.Tests.{moves}
use libraspike_art.Link.State.{stats_increment}
use libraspike_art.Link.Ports.{is_valid_port}
use libraspike_art.Link.System.{System}
use libraspike_art.Link.Send.{send_frame, send_v2_frame, v2_frame}
use libraspike_art.Com.Usb.Stream.{stream}
use libraspike_art.Com.Usb.Channel.{Clear}
use libraspike_art.Link.Send.Framed.{the_frame, send_frame-the_frame}
use libraspike_art.Link.Tests.{session, on_line}
use libraspike_art.Link.Tests.Runs.{after}

abbrev quiet : System
quiet = on_line (moves 64 ∷ []) [] [] []

-- A frame with one byte of payload is sent.
abbrev sent : System
sent = after (send_frame 2 44 (bytes (50 ∷ [])) 6 0 false quiet) quiet

send_frame-the_frame_example :
    Clear sent.line × (stream sent.line ≡ [] ++ the_frame session 2 44 (bytes (50 ∷ [])) 6 0)
unfolding send_frame send_v2_frame is_valid_port v2_frame com_send usb_send write_all_fd write_loop
    write_round write_fd wait_fd stats_increment
send_frame-the_frame_example =
    send_frame-the_frame 2 44 (bytes (50 ∷ [])) 6 0 false quiet sent (pos 17) (inr refl) refl refl
