-- ===== src/Link/Request/Retried.antt =====
-- A request of src/raspike_protocol.c whose first frame is not answered in time.
use libraspike_art.Base.{
  ℕ, ◌<◌, ◌^◌, ◌≡◌, ap₂, ◌∙◌, List, ◌∷◌, ◌++◌, refl, ap, some, true, pos, neg, signed32, done,
}
use libraspike_art.Base.Errno.{etimedout}
use libraspike_art.Wire.Layout.{v2_flag_high_priority}
use libraspike_art.Com.Fd.{Buf}
use libraspike_art.Link.State.{Link, Counter, stats_increment}
use libraspike_art.Link.Ports.{is_valid_port, get_device, next_sequence}
use libraspike_art.Link.System.{System, Turn}
use libraspike_art.Link.Send.{send_frame}
use libraspike_art.Link.Send.Framed.{the_frame, send_frame-the_frame}
use libraspike_art.Com.Usb.Stream.{stream}
use libraspike_art.Com.Usb.Channel.{Clear}
use libraspike_art.Link.Request.{begin_request, attempt_loop, max_attempts, request}
use libraspike_art.Link.Request.Handled.{resting, acked}
use libraspike_art.Link.Request.Attempts.{
  silent, pending_in, announced, unanswered, missed_attempt, request-request_at, two_attempts,
}
use libraspike_art.Link.Request.Answered.{the_answer, answered_attempt, request_at-acked}

-- The frame of a request that is made in the state `s`.
abbrev pub request_frame : ℕ → ℕ → Buf → System → List ℕ
request_frame port cmd payload s =
    the_frame s.link port cmd payload s.link.next_sequence v2_flag_high_priority

-- The frame was sent twice.
pub record SentTwice (frame : List ℕ) (s s' : System) : Type 0 where
  pub sent : stream s'.line ≡ (stream s.line ++ frame) ++ frame
  pub counters :
      s'.link.stats
      ≡ (stats_increment Counter.request_retries
          (stats_increment Counter.tx_frames (stats_increment Counter.tx_frames s.link))).stats

module _ (port i cmd value : ℕ) (valid : is_valid_port port ≡ true)
    (entry : get_device port ≡ some i) (cmd_lt : cmd < 256) (value_lt : value < 2 ^ 32) where
  abbrev pub answer_to : System → Turn
  answer_to s = the_answer port i cmd value valid entry cmd_lt value_lt s.link.next_sequence s.link

  -- The session in which the frame is sent once more.
  abbrev pub once_more : System → Link
  once_more s = unanswered (next_sequence s.link).0

  retried_turns :
      (payload : Buf) (rest : List Turn) (s u w : System) (n m : ℕ)
      → s.link.use_protocol_v2 ≡ true
      → s.turns ≡ resting ∷ silent ∷ resting ∷ answer_to s ∷ rest
      → send_frame port cmd payload s.link.next_sequence v2_flag_high_priority true
          (announced i (silent ∷ resting ∷ answer_to s ∷ rest) s)
        ≡ done (pos n) u
      → send_frame port cmd payload s.link.next_sequence v2_flag_high_priority true
          (pending_in i s.link.next_sequence (once_more s) (answer_to s ∷ rest) u)
        ≡ done (pos m) w
      → attempt_loop
          (max_attempts s.link)
          i
          port
          cmd
          payload
          s.link.next_sequence
          (neg etimedout)
          (announced i s.turns s)
        ≡ done
            (neg etimedout, true)
            (record w {
              turns = rest;
              link =
                  acked port i cmd value valid entry cmd_lt value_lt s.link.next_sequence
                    (once_more s);
            })
  unfolding next_sequence stats_increment
  retried_turns payload rest s u w n m v2 turns sent sent_again =
      let loop = λ (attempts : ℕ) (t : List Turn).
        attempt_loop attempts i port cmd payload s.link.next_sequence (neg etimedout)
          (announced i t s) in
      ap₂ loop (two_attempts s.link v2) turns
      ∙ missed_attempt i port cmd payload s.link.next_sequence (neg etimedout)
          (next_sequence s.link).0 (resting ∷ answer_to s ∷ rest) s u n sent 0
      ∙ answered_attempt port i cmd value valid entry cmd_lt value_lt 0 payload s.link.next_sequence
          (neg etimedout) (once_more s) rest u w m sent_again

  -- Both frames went out: one with the number of the request and in its session, and the same again.
  sent_twice :
      (payload : Buf) (rest : List Turn) (s u w : System) (n m : ℕ)
      → Clear s.line
      → send_frame port cmd payload s.link.next_sequence v2_flag_high_priority true
          (announced i (silent ∷ resting ∷ answer_to s ∷ rest) s)
        ≡ done (pos n) u
      → send_frame port cmd payload s.link.next_sequence v2_flag_high_priority true
          (pending_in i s.link.next_sequence (once_more s) (answer_to s ∷ rest) u)
        ≡ done (pos m) w
      → stream w.line
        ≡ (stream s.line ++ request_frame port cmd payload s) ++ request_frame port cmd payload s
  unfolding begin_request next_sequence stats_increment
  sent_twice payload rest s u w n m clear sent sent_again =
      let first =
        send_frame-the_frame port cmd payload s.link.next_sequence v2_flag_high_priority true
          (announced i (silent ∷ resting ∷ answer_to s ∷ rest) s) u (pos n) clear sent refl in
      let second =
        send_frame-the_frame port cmd payload s.link.next_sequence v2_flag_high_priority true
          (pending_in i s.link.next_sequence (once_more s) (answer_to s ∷ rest) u) w (pos m) first.0
          sent_again refl in
      second.1 ∙ ap (λ xs. xs ++ request_frame port cmd payload s) first.1

  -- For a valid port, a command below 256 and a 32-bit value, in version 2, while no bytes wait outside
  -- the buffered mode: if no other thread does anything until the answer, both frames of a request can be
  -- sent, the deadline of the first one passes, and the acknowledgement of the command, with the sequence
  -- number of the request and in its session, comes in the first turn of the second wait, then the
  -- request returns with the value of the acknowledgement, read as a signed number. To the stream of
  -- bytes it has added exactly its frame twice, both times with that sequence number and session, and
  -- the counters have gone on by two frames sent and one retry.
  pub request-retried :
      (payload : Buf) (rest : List Turn) (s u w : System) (n m : ℕ)
      → s.link.use_protocol_v2 ≡ true
      → Clear s.line
      → s.turns ≡ resting ∷ silent ∷ resting ∷ answer_to s ∷ rest
      → send_frame port cmd payload s.link.next_sequence v2_flag_high_priority true
          (announced i (silent ∷ resting ∷ answer_to s ∷ rest) s)
        ≡ done (pos n) u
      → send_frame port cmd payload s.link.next_sequence v2_flag_high_priority true
          (pending_in i s.link.next_sequence (once_more s) (answer_to s ∷ rest) u)
        ≡ done (pos m) w
      → (s' : System) × ((request port cmd payload s ≡ done (signed32 value) s')
          × SentTwice (request_frame port cmd payload s) s s')
  unfolding stats_increment next_sequence
  request-retried payload rest s u w n m v2 clear turns sent sent_again =
      let (s', (e, settled)) =
        request_at-acked port i cmd value valid entry cmd_lt value_lt payload s w rest (once_more s)
          (retried_turns payload rest s u w n m v2 turns sent sent_again) in
      (
        s',
        (
          request-request_at port i cmd valid entry payload s ∙ e,
          record {
            sent =
                ap stream settled.same_line
                ∙ sent_twice payload rest s u w n m clear sent sent_again;
            counters = settled.stats;
          },
        ),
      )
