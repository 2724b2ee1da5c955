-- ===== src/Link/Request/TimedOut.antt =====
-- A request of src/raspike_protocol.c that is not answered.
use libraspike_art.Base.{
  ℕ, ◌≡◌, refl, ap, ap₂, ◌∙◌, List, ◌∷◌, some, true, false, pos, neg, done, bind_done,
}
use libraspike_art.Base.Errno.{etimedout}
use libraspike_art.Wire.Layout.{v2_flag_high_priority}
use libraspike_art.Com.Fd.{Buf}
use libraspike_art.Link.State.{Link, Counter, stats_increment}
use libraspike_art.Link.Ports.{is_valid_port, get_device, next_sequence}
use libraspike_art.Link.System.{System, Turn}
use libraspike_art.Link.Send.{send_frame}
use libraspike_art.Link.Request.{
  begin_request, attempt_loop, max_attempts, finish_request, finish, request_at, request,
  end_request,
}
use libraspike_art.Link.Request.Handled.{resting}
use libraspike_art.Link.Request.Attempts.{
  silent, pending_in, announced, unanswered, missed_attempt, last_attempt, sent_link,
  request-request_at, two_attempts,
}

-- The session after a request to the entry i that is given up after two frames.
abbrev pub given_up : ℕ → Link → Link
given_up i l = end_request i (
    begin_request i l.next_sequence (
      stats_increment Counter.request_timeouts
        (stats_increment Counter.tx_frames (unanswered (next_sequence l).0))))

finish_unanswered :
    (i cmd sequence : ℕ) (u : System)
    → finish i cmd sequence (neg etimedout, false) u
      ≡ done
          (neg etimedout)
          (record u { link = end_request i (stats_increment Counter.request_timeouts u.link) })
unfolding finish_request
finish_unanswered i cmd sequence u = refl

ends_given_up :
    (i : ℕ) (l k : Link)
    → k
      ≡ begin_request i l.next_sequence
          (stats_increment Counter.tx_frames (unanswered (next_sequence l).0))
    → end_request i (stats_increment Counter.request_timeouts k) ≡ given_up i l
unfolding begin_request stats_increment
ends_given_up i l k e = ap (λ k. end_request i (stats_increment Counter.request_timeouts k)) e

module _ (port i cmd : ℕ) (valid : is_valid_port port ≡ true)
    (entry : get_device port ≡ some i) where
  unanswered_turns :
      (payload : Buf) (rest : List Turn) (s u w : System) (n m : ℕ)
      → s.link.use_protocol_v2 ≡ true
      → s.turns ≡ resting ∷ silent ∷ resting ∷ silent ∷ rest
      → send_frame port cmd payload s.link.next_sequence v2_flag_high_priority true
          (announced i (silent ∷ resting ∷ silent ∷ rest) s)
        ≡ done (pos n) u
      → send_frame port cmd payload s.link.next_sequence v2_flag_high_priority true (
          pending_in i s.link.next_sequence (unanswered (next_sequence s.link).0) (silent ∷ rest) u)
        ≡ done (pos m) w
      → attempt_loop
          (max_attempts s.link)
          i
          port
          cmd
          payload
          s.link.next_sequence
          (neg etimedout)
          (announced i s.turns s)
        ≡ done (neg etimedout, false) (record w { turns = rest })
  unanswered_turns payload rest s u w n m v2 turns sent sent_again =
      let loop = λ (attempts : ℕ) (t : List Turn).
        attempt_loop attempts i port cmd payload s.link.next_sequence (neg etimedout)
          (announced i t s) in
      ap₂ loop (two_attempts s.link v2) turns
      ∙ missed_attempt i port cmd payload s.link.next_sequence (neg etimedout)
          (next_sequence s.link).0 (resting ∷ silent ∷ rest) s u n sent 0
      ∙ last_attempt i port cmd payload s.link.next_sequence (neg etimedout)
          (unanswered (next_sequence s.link).0) rest u w m sent_again

  -- For a valid port, in version 2: if both frames of a request are sent and both deadlines pass while
  -- no other thread does anything, the request returns -ETIMEDOUT; all that it has changed of the session
  -- is the sequence number, one retry, one timeout and two frames that are counted, and its entry, which
  -- waits no more.
  pub request-timed_out :
      (payload : Buf) (rest : List Turn) (s u w : System) (n m : ℕ)
      → s.link.use_protocol_v2 ≡ true
      → s.turns ≡ resting ∷ silent ∷ resting ∷ silent ∷ rest
      → send_frame port cmd payload s.link.next_sequence v2_flag_high_priority true
          (announced i (silent ∷ resting ∷ silent ∷ rest) s)
        ≡ done (pos n) u
      → send_frame port cmd payload s.link.next_sequence v2_flag_high_priority true (
          pending_in i s.link.next_sequence (unanswered (next_sequence s.link).0) (silent ∷ rest) u)
        ≡ done (pos m) w
      → request port cmd payload s
        ≡ done (neg etimedout) (record w { turns = rest; link = given_up i s.link })
  unfolding request_at next_sequence begin_request
  request-timed_out payload rest s u w n m v2 turns sent sent_again =
      request-request_at port i cmd valid entry payload s
      ∙ bind_done _ (finish i cmd s.link.next_sequence) (neg etimedout, false)
          (record w { turns = rest })
          (unanswered_turns payload rest s u w n m v2 turns sent sent_again)
      ∙ finish_unanswered i cmd s.link.next_sequence (record w { turns = rest })
      ∙ ap (λ (k : Link). done (neg etimedout) (record w { turns = rest; link = k }))
          (ends_given_up i s.link w.link (
            sent_link i port cmd payload s.link.next_sequence (neg etimedout)
              (unanswered (next_sequence s.link).0) rest u w m sent_again))
