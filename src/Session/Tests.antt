-- ===== src/Session/Tests.antt =====
-- The start of a session, from the static variables of src/raspike_protocol.c on.
use libraspike_art.Base.{◌<◌, ◌^◌, ◌≡◌, ◌≢◌, refl, [], ◌∷◌, some, true, false, fault, pos}
use libraspike_art.Com.Fd.{
  bytes, write_all_fd, write_loop, write_round, write_fd, wait_fd, read_fd, read_some_fd,
}
use libraspike_art.Com.Usb.{
  usb_send, com_send, com_flush, usb_flush, flush_buffer_locked, usb_set_mode, com_receive_timeout,
  receive_loop, receive_round, usb_receive, retry, com_discard_input,
}
use libraspike_art.Com.Tests.{descriptor}
use libraspike_art.Wire.Word.{get_u16, get_u32}
use libraspike_art.Link.Lifecycle.Fresh.{Live}
use libraspike_art.Link.System.{is_null, System}
use libraspike_art.Link.Receive.{receive_bytes, prot_receive}
use libraspike_art.Link.Request.{request}
use libraspike_art.Link.Handshake.{
  scan_loop, scan_for_byte, read_version, perform_handshake_once, handshake_loop, perform_handshake,
  accept_hello, receive_legacy_hello,
}
use libraspike_art.Link.Lifecycle.{init_ports, connect, init_with, prot_init}
use libraspike_art.Link.Tests.Runs.{fresh, version, after}
use libraspike_art.Session.{initial, Step, inits, Reach, starts, next}
use libraspike_art.Link.Ports.{next_sequence}
use libraspike_art.Session.Numbers.{Reach-next_sequence}
use libraspike_art.Session.Safety.{Reach-Live, prot_receive-ne-fault, request-ne-fault}

abbrev at_start : System
at_start = record fresh { link = initial }

abbrev connected : System
connected = after (prot_init version true (some descriptor) at_start) at_start

abbrev connects : Step at_start connected
unfolding initial prot_init init_with connect init_ports perform_handshake handshake_loop
    perform_handshake_once scan_for_byte scan_loop read_version receive_legacy_hello accept_hello
    receive_bytes com_receive_timeout receive_loop receive_round usb_receive retry read_some_fd
    read_fd com_discard_input com_send usb_send com_flush usb_flush flush_buffer_locked write_all_fd
    write_loop write_round write_fd wait_fd usb_set_mode get_u16 get_u32
connects = inits version true (some descriptor) (pos 0) refl

abbrev reached : Reach connected
reached = next (starts fresh.line [] at_start refl) connects

connected_complete : connected.link.handshake_complete ≡ true
unfolding initial prot_init init_with connect init_ports perform_handshake handshake_loop
    perform_handshake_once scan_for_byte scan_loop read_version receive_legacy_hello accept_hello
    receive_bytes com_receive_timeout receive_loop receive_round usb_receive retry read_some_fd
    read_fd com_discard_input com_send usb_send com_flush usb_flush flush_buffer_locked write_all_fd
    write_loop write_round write_fd wait_fd usb_set_mode get_u16 get_u32
connected_complete = refl

connected_open : is_null connected.link.desc ≡ false
unfolding initial prot_init init_with connect init_ports perform_handshake handshake_loop
    perform_handshake_once scan_for_byte scan_loop read_version receive_legacy_hello accept_hello
    receive_bytes com_receive_timeout receive_loop receive_round usb_receive retry read_some_fd
    read_fd com_discard_input com_send usb_send com_flush usb_flush flush_buffer_locked write_all_fd
    write_loop write_round write_fd wait_fd usb_set_mode get_u16 get_u32
connected_open = refl

Reach-Live_example : Live connected.link
Reach-Live_example = Reach-Live connected reached connected_complete connected_open

prot_receive-ne-fault_example : prot_receive connected ≢ fault
prot_receive-ne-fault_example = prot_receive-ne-fault connected reached

request-ne-fault_example : request 0 44 (bytes (50 ∷ [])) connected ≢ fault
request-ne-fault_example =
    request-ne-fault connected reached connected_complete 0 44 (bytes (50 ∷ []))

Reach-next_sequence_example :
    (0 < (next_sequence connected.link).1)
    × (((next_sequence connected.link).1 < 2 ^ 32)
        × ((next_sequence (next_sequence connected.link).0).1 ≢ (next_sequence connected.link).1))
Reach-next_sequence_example = Reach-next_sequence connected reached
