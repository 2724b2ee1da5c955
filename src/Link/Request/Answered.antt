-- ===== src/Link/Request/Answered.antt =====
-- A request of src/raspike_protocol.c from its start to its answer, the receiver handling the
-- acknowledgement while it waits.
use libraspike_art.Base.{
  ℕ, suc, ◌<◌, ◌^◌, ◌≡◌, refl, ap, ap₂, ◌∙◌, List, ◌∷◌, some, Bool, true, false, if◌then◌else◌, ℤ,
  pos, neg, signed32, done, bind_done,
}
use libraspike_art.Base.Errno.{etimedout}
use libraspike_art.Wire.Layout.{v2_flag_high_priority}
use libraspike_art.Com.Fd.{Buf}
use libraspike_art.Link.State.{Link, Counter, stats_increment}
use libraspike_art.Link.Ports.{is_valid_port, get_device, next_sequence}
use libraspike_art.Link.System.{System, Turn}
use libraspike_art.Link.Send.{send_frame}
use libraspike_art.Link.Send.Effect.{send_frame-Sends, send_frame-is_null}
use libraspike_art.Link.Request.{
  begin_request, attempt_loop, finish_request, finish, max_attempts, request_at, request,
}
use libraspike_art.Link.Request.Handled.{
  acknowledges, answering, resting, acked, acked_over, answered_wait,
}
use libraspike_art.Link.Request.Attempts.{
  attempted, pending_in, announced, rested, expects, counted, request-request_at,
}
use libraspike_art.Link.Request.Outcomes.{process_ack-finish, process_ack-finish_stats}

attempts-suc : (v2 : Bool) → (if v2 then 2 else 1) ≡ suc (if v2 then 1 else 0)
attempts-suc true = refl
attempts-suc false = refl

-- After the answer to a request: its end sends nothing, and of the session `l` in which the last frame
-- was sent only that frame is counted.
pub record Settled (l : Link) (u s' : System) : Type 0 where
  pub same_line : s'.line ≡ u.line
  pub stats : s'.link.stats ≡ (stats_increment Counter.tx_frames l).stats

module _ (port i cmd value : ℕ) (valid : is_valid_port port ≡ true)
    (entry : get_device port ≡ some i) (cmd_lt : cmd < 256) (value_lt : value < 2 ^ 32) where
  -- The acknowledgement that the request waits for, in the turn in which it comes.
  abbrev pub the_answer : ℕ → Link → Turn
  the_answer sequence l = answering (acknowledges port sequence l.session_id cmd value)

  -- An attempt whose frame is sent and whose answer comes.
  pub answered_attempt :
      (left : ℕ) (payload : Buf) (sequence : ℕ) (result : ℤ) (l : Link) (rest : List Turn)
      (s u : System) (n : ℕ)
      → send_frame port cmd payload sequence v2_flag_high_priority true
          (pending_in i sequence l (the_answer sequence l ∷ rest) s)
        ≡ done (pos n) u
      → attempt_loop
          (suc left)
          i
          port
          cmd
          payload
          sequence
          result
          (pending_in i sequence l (resting ∷ the_answer sequence l ∷ rest) s)
        ≡ done
            (result, true)
            (record u {
              turns = rest;
              link = acked port i cmd value valid entry cmd_lt value_lt sequence l;
            })
  unfolding begin_request
  answered_attempt left payload sequence result l rest s u n sent =
      let effect =
        send_frame-Sends port cmd payload sequence v2_flag_high_priority true
          (pending_in i sequence l (the_answer sequence l ∷ rest) s) u (pos n) sent refl in
      attempted i port cmd payload sequence result
        (pending_in i sequence l (resting ∷ the_answer sequence l ∷ rest) s)
        (pending_in i sequence l (the_answer sequence l ∷ rest) s) u _ n
        (rested i sequence l (the_answer sequence l ∷ rest) s) (expects i sequence l) sent
        (answered_wait port i cmd value valid entry cmd_lt value_lt sequence result rest l u
          (send_frame-is_null port cmd payload sequence v2_flag_high_priority true
            (pending_in i sequence l (the_answer sequence l ∷ rest) s) u (pos n) sent refl)
          (counted i sequence l u effect.0) effect.1)
        left (acked_over port i cmd value valid entry cmd_lt value_lt sequence l)

  ended :
      (sequence : ℕ) (result : ℤ) (l : Link) (v : System)
      → v.link ≡ acked port i cmd value valid entry cmd_lt value_lt sequence l
      → (v' : System) × ((finish i cmd sequence (result, true) v ≡ done (signed32 value) v')
          × Settled l v v')
  unfolding stats_increment
  ended sequence result l v e = (
    record v { link = (finish_request i cmd sequence result true v.link).0 },
    (
      ap
          (λ ret.
            done ret (record v { link = (finish_request i cmd sequence result true v.link).0 }))
          (ap (λ k. (finish_request i cmd sequence result true k).1) e
            ∙ process_ack-finish cmd value cmd_lt value_lt i sequence result
                (stats_increment Counter.tx_frames l)),
      record {
        same_line = refl;
        stats =
            ap (λ k. (finish_request i cmd sequence result true k).0.stats) e
            ∙ process_ack-finish_stats cmd value cmd_lt value_lt i sequence result
                (stats_increment Counter.tx_frames l);
      },
    ),
  )

  -- A request whose attempts end with the answer.
  pub request_at-acked :
      (payload : Buf) (s u : System) (rest : List Turn) (l : Link)
      → attempt_loop
          (max_attempts s.link)
          i
          port
          cmd
          payload
          s.link.next_sequence
          (neg etimedout)
          (pending_in i s.link.next_sequence (next_sequence s.link).0 s.turns s)
        ≡ done
            (neg etimedout, true)
            (record u {
              turns = rest;
              link = acked port i cmd value valid entry cmd_lt value_lt s.link.next_sequence l;
            })
      → (s' : System) × ((request_at i port cmd payload s ≡ done (signed32 value) s')
          × Settled l u s')
  unfolding request_at next_sequence begin_request
  request_at-acked payload s u rest l over =
      let v : System = record u {
        turns = rest;
        link = acked port i cmd value valid entry cmd_lt value_lt s.link.next_sequence l;
      } in
      let end = ended s.link.next_sequence (neg etimedout) l v refl in
      (
        end.0,
        (
          bind_done _ (finish i cmd s.link.next_sequence) (neg etimedout, true) v over ∙ end.1.0,
          record { same_line = end.1.1.same_line; stats = end.1.1.stats },
        ),
      )

  answered_turns :
      (payload : Buf) (rest : List Turn) (s u : System) (n : ℕ)
      → s.turns ≡ resting ∷ the_answer s.link.next_sequence s.link ∷ rest
      → send_frame port cmd payload s.link.next_sequence v2_flag_high_priority true
          (announced i (the_answer s.link.next_sequence s.link ∷ rest) s)
        ≡ done (pos n) u
      → attempt_loop
          (max_attempts s.link)
          i
          port
          cmd
          payload
          s.link.next_sequence
          (neg etimedout)
          (announced i s.turns s)
        ≡ done
            (neg etimedout, true)
            (record u {
              turns = rest;
              link =
                  acked port i cmd value valid entry cmd_lt value_lt s.link.next_sequence
                    (next_sequence s.link).0;
            })
  unfolding next_sequence
  answered_turns payload rest s u n turns sent =
      let loop = λ (attempts : ℕ) (t : List Turn).
        attempt_loop attempts i port cmd payload s.link.next_sequence (neg etimedout)
          (announced i t s) in
      ap₂ loop (attempts-suc s.link.use_protocol_v2) turns
      ∙ answered_attempt _ payload s.link.next_sequence (neg etimedout) (next_sequence s.link).0
          rest s u n sent

  -- For a valid port, a command below 256 and a 32-bit value, in version 2 as in version 1: if no other
  -- thread does anything before the frame of a request is sent, and the acknowledgement of its command,
  -- with its sequence number and in its session, comes in the first turn of the wait, then the request
  -- returns, and its result is the value of the acknowledgement, read as a signed number.
  pub request-answered :
      (payload : Buf) (rest : List Turn) (s u : System) (n : ℕ)
      → s.turns ≡ resting ∷ the_answer s.link.next_sequence s.link ∷ rest
      → send_frame port cmd payload s.link.next_sequence v2_flag_high_priority true
          (announced i (the_answer s.link.next_sequence s.link ∷ rest) s)
        ≡ done (pos n) u
      → (s' : System) × (request port cmd payload s ≡ done (signed32 value) s')
  request-answered payload rest s u n turns sent =
      let (s', e) =
        request_at-acked payload s u rest (next_sequence s.link).0
          (answered_turns payload rest s u n turns sent) in
      (s', request-request_at port i cmd valid entry payload s ∙ e.0)
