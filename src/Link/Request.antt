-- ===== src/Link/Request.antt =====
-- `raspike_request`, src/raspike_protocol.c, lines 477 to 562.
pub mod Lost
pub mod Answered
pub mod Attempts
pub mod Handled
pub mod Keeps
pub mod Outcomes
pub mod Retried
pub mod TimedOut
use libraspike_art.Base.{
  ℕ, zero, suc, ◌+◌, ◌-◌, ◌&&◌, ◌||◌, not, List, [], ◌∷◌, Option, none, some, Bool, true, false,
  ltb, leb, ◌==◌, if◌then◌else◌, ℤ, pos, neg, is_neg, ◌==ℤ◌, Outcome, Action, done, blocked, fault,
  within, pure, ◌>>=◌, ◌>>◌, get,
}
use libraspike_art.Base.Errno.{einval, eintr, etimedout}
use libraspike_art.Wire.Layout.{v2_flag_high_priority}
use libraspike_art.Com.Fd.{Buf}
use libraspike_art.Link.State.{Link, PortDevice, Counter, stats_increment}
use libraspike_art.Link.Ports.{is_valid_port, get_device, update_port, next_sequence}
use libraspike_art.Link.System.{System, Turn, on_link, run_others, update_link, yield}
use libraspike_art.Link.Send.{send_frame}

-- The request is announced: the entry waits for an answer to `sequence`.
unfoldable pub begin_request : ℕ → ℕ → Link → Link
begin_request i sequence l =
    update_port i
      (record (l.ports i) {
        pending = true;
        pending_sequence = sequence;
        ack_sequence = 0;
        ack_session = 0;
        ack_cmd = pos 0;
        ack_data = pos 0;
      })
      l

-- The loop `while (dev->pending)`: the result so far, or the error of the wait. The deadline is the
-- system's: that it has passed is the outcome ETIMEDOUT of a turn.
unfoldable pub wait_for_ack : List Turn → ℕ → ℤ → Action System ℤ
unfolding run_others
wait_for_ack [] i result s = if (s.link.ports i).pending then blocked else done result s
wait_for_ack (t ∷ turns) i result s =
    let again = wait_for_ack turns i result in
    let woken = on_link (run_others t.others) >>= λ _.
    (if t.outcome == etimedout
      then pure result
      else if not (t.outcome == 0) && not (t.outcome == eintr)
      then pure (neg t.outcome)
      else again) in
    if (s.link.ports i).pending then woken (record s { turns = turns }) else done result s

-- The loop over the attempts, with `left` of them to go: the result, and `completed`.
unfoldable pub attempt_loop : ℕ → ℕ → ℕ → ℕ → Buf → ℕ → ℤ → Action System (ℤ × Bool)
unfolding yield send_frame wait_for_ack stats_increment
attempt_loop zero i port cmd payload sequence result = pure (result, false)
attempt_loop (suc left) i port cmd payload sequence result =
    let next = λ (result : ℤ). attempt_loop left i port cmd payload sequence result in
    do
      yield
      before ← get
      if not (before.link.ports i).pending then pure (result, true) else (do
        sent ← send_frame port cmd payload sequence v2_flag_high_priority true
        if is_neg sent then pure (sent, false) else (do
          waiting ← get
          result' ← wait_for_ack waiting.turns i result
          after ← get
          if not (after.link.ports i).pending
              then pure (result', true)
              else if ltb 0 left
              then (do update_link (stats_increment Counter.request_retries); next result')
              else next result'))

-- The answer, read under the mutex of the entry, and the end of the request.
abbrev pub answers : Link → PortDevice → ℕ → ℕ → Bool
answers l dev cmd sequence =
    dev.ack_cmd ==ℤ pos cmd
    && (not l.use_protocol_v2 || (dev.ack_sequence == sequence && dev.ack_session == l.session_id))

abbrev end_request : ℕ → Link → Link
end_request i l = update_port i (record (l.ports i) { pending = false }) l

unfoldable pub finish_request : ℕ → ℕ → ℕ → ℤ → Bool → Link → Link × ℤ
unfolding stats_increment
finish_request i cmd sequence result completed l =
    let dev = l.ports i in
    if completed && (dev.ack_cmd ==ℤ neg 1)
    then (end_request i l, dev.ack_data)
    else if completed && answers l dev cmd sequence
    then (end_request i l, dev.ack_data)
    else if result ==ℤ neg etimedout
    then (end_request i (stats_increment Counter.request_timeouts l), result)
    else (end_request i l, result)

abbrev finish : ℕ → ℕ → ℕ → ℤ × Bool → Action System ℤ
finish i cmd sequence (result, completed) s =
    let (l, ret) = finish_request i cmd sequence result completed s.link in
    done ret (record s { link = l })

abbrev max_attempts : Link → ℕ
max_attempts l = if l.use_protocol_v2 then 2 else 1

unfoldable pub request_at : ℕ → ℕ → ℕ → Buf → Action System ℤ
unfolding next_sequence begin_request attempt_loop finish_request
request_at i port cmd payload s =
    let (l, sequence) = next_sequence s.link in
    let begun = begin_request i sequence l in
    (attempt_loop (max_attempts begun) i port cmd payload sequence (neg etimedout)
        >>= finish i cmd sequence)
      (record s { link = begun })

abbrev on_entry : Option ℕ → (ℕ → Action System ℤ) → Action System ℤ
on_entry none f = pure (neg einval)
on_entry (some i) f = f i

-- The timeout only sets the deadline of the wait.
unfoldable pub request : ℕ → ℕ → Buf → Action System ℤ
unfolding is_valid_port get_device request_at
request port cmd payload =
    if not (is_valid_port port)
    then pure (neg einval)
    else on_entry (get_device port) (λ i. request_at i port cmd payload)
