-- ===== src/Link/Tests/Answered.antt =====
-- Whole requests: answered at once, after a second frame, and not at all.
use libraspike_art.Base.{inr, ◌≡◌, refl, [], ◌∷◌, List, true, neg, done, arith}
use libraspike_art.Base.Errno.{etimedout}
use libraspike_art.Wire.Layout.{v2_flag_high_priority}
use libraspike_art.Com.Fd.{bytes, write_all_fd, write_loop, write_round, write_fd, wait_fd}
use libraspike_art.Com.Usb.{usb_send, com_send, com_flush, usb_flush, flush_buffer_locked}
use libraspike_art.Com.Tests.{moves}
use libraspike_art.Link.State.{Link, stats_increment}
use libraspike_art.Link.Ports.{is_valid_port, get_device, next_sequence}
use libraspike_art.Link.System.{System, Turn}
use libraspike_art.Link.Send.{v2_frame, send_v2_frame, send_frame}
use libraspike_art.Link.Request.{begin_request, request}
use libraspike_art.Link.Request.Handled.{acknowledges, answering, resting}
use libraspike_art.Link.Request.Attempts.{silent, unanswered}
use libraspike_art.Link.Request.Answered.{request-answered}
use libraspike_art.Link.Request.Retried.{SentTwice, request_frame, request-retried}
use libraspike_art.Link.Request.TimedOut.{given_up, request-timed_out}
use libraspike_art.Link.Tests.{session, on_line}
use libraspike_art.Link.Tests.Runs.{after}

-- The acknowledgement carries the largest 32-bit number, which is read as -1.
abbrev answer : Turn
answer = answering (acknowledges 0 6 9 44 4294967295)

abbrev asking : List Turn → System
asking turns = on_line (moves 64 ∷ moves 64 ∷ []) [] [] turns

-- The session in which the request is announced.
abbrev announcing : Link
announcing = record session { next_sequence = 7 }

abbrev sent_from : Link → List Turn → System → System
sent_from l turns s =
    after
      (send_frame 0 44 (bytes (50 ∷ [])) 6 v2_flag_high_priority true
        (record s { link = begin_request 0 6 l; turns = turns }))
      s

abbrev first_sent : List Turn → System
first_sent turns = sent_from announcing turns (asking [])

request-answered_example :
    (s' : System) × (request 0 44 (bytes (50 ∷ [])) (asking (resting ∷ answer ∷ []))
      ≡ done (neg 1) s')
unfolding send_frame send_v2_frame v2_frame com_send usb_send com_flush usb_flush
    flush_buffer_locked write_all_fd write_loop write_round write_fd wait_fd next_sequence
    begin_request is_valid_port get_device stats_increment
request-answered_example =
    request-answered 0 0 44 4294967295 refl refl (omega arith) (omega arith) (bytes (50 ∷ [])) []
      (asking (resting ∷ answer ∷ [])) (first_sent (answer ∷ [])) 17 refl refl

abbrev retried_turns : List Turn
retried_turns = silent ∷ resting ∷ answer ∷ []

request-retried_example :
    (s' : System) × ((request 0 44 (bytes (50 ∷ [])) (asking (resting ∷ retried_turns))
        ≡ done (neg 1) s')
      × SentTwice
          (request_frame 0 44 (bytes (50 ∷ [])) (asking (resting ∷ retried_turns)))
          (asking (resting ∷ retried_turns))
          s')
unfolding send_frame send_v2_frame v2_frame com_send usb_send com_flush usb_flush
    flush_buffer_locked write_all_fd write_loop write_round write_fd wait_fd next_sequence
    begin_request is_valid_port get_device stats_increment
request-retried_example =
    request-retried 0 0 44 4294967295 refl refl (omega arith) (omega arith) (bytes (50 ∷ [])) []
      (asking (resting ∷ retried_turns)) (first_sent retried_turns)
      (sent_from (unanswered announcing) (answer ∷ []) (first_sent retried_turns)) 17 17 refl
      (inr refl) refl refl refl

abbrev silent_turns : List Turn
silent_turns = silent ∷ resting ∷ silent ∷ []

request-timed_out_example :
    request 0 44 (bytes (50 ∷ [])) (asking (resting ∷ silent_turns))
    ≡ done
        (neg etimedout)
        (record (sent_from (unanswered announcing) (silent ∷ []) (first_sent silent_turns)) {
          turns = [];
          link = given_up 0 session;
        })
unfolding send_frame send_v2_frame v2_frame com_send usb_send com_flush usb_flush
    flush_buffer_locked write_all_fd write_loop write_round write_fd wait_fd next_sequence
    begin_request is_valid_port get_device stats_increment
request-timed_out_example =
    request-timed_out 0 0 44 refl refl (bytes (50 ∷ [])) [] (asking (resting ∷ silent_turns))
      (first_sent silent_turns)
      (sent_from (unanswered announcing) (silent ∷ []) (first_sent silent_turns)) 17 17 refl refl
      refl refl
