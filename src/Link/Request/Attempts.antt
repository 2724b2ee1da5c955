-- ===== src/Link/Request/Attempts.antt =====
-- The attempts of `raspike_request`, src/raspike_protocol.c: one that ends the loop, and one whose wait
-- passes without an answer.
use libraspike_art.Base.{
  ℕ, suc, ◌≡◌, refl, ap, ◌∙◌, List, [], ◌∷◌, some, Bool, true, false, not, ==-refl, ltb, ltb-true,
  arith, if◌then◌else◌, ℤ, pos, neg, Action, done, pure, bind_done,
}
use libraspike_art.Base.Errno.{einval, etimedout}
use libraspike_art.Wire.Layout.{v2_flag_high_priority}
use libraspike_art.Com.Fd.{Buf}
use libraspike_art.Link.State.{Link, Counter, stats_increment}
use libraspike_art.Link.Ports.{is_valid_port, get_device, next_sequence}
use libraspike_art.Link.System.{System, Turn, run_others, yield}
use libraspike_art.Link.Send.{send_frame}
use libraspike_art.Link.Send.Effect.{send_frame-Sends}
use libraspike_art.Link.Request.{
  begin_request, max_attempts, wait_for_ack, attempt_loop, request_at, request, on_entry,
}
use libraspike_art.Link.Request.Handled.{resting, to_outcome}

-- A branch of a test on a state.
to_else :
    {A : Type 0} (b : Bool) (x y : Action System A) (s : System)
    → b ≡ false
    → (if b then x else y) s ≡ y s
to_else true x y s e = cc
to_else false x y s e = refl

to_then :
    {A : Type 0} (b : Bool) (x y : Action System A) (s : System)
    → b ≡ true
    → (if b then x else y) s ≡ x s
to_then true x y s e = refl
to_then false x y s e = cc

module _ (i port cmd : ℕ) (payload : Buf) (sequence : ℕ) (result : ℤ) (s t u v : System) (n : ℕ)
    (yielded : yield s ≡ done tt t) (waits : (t.link.ports i).pending ≡ true)
    (sent : send_frame port cmd payload sequence v2_flag_high_priority true t ≡ done (pos n) u)
    (waited : wait_for_ack u.turns i result u ≡ done result v) where
  -- An attempt whose frame is sent and whose wait is over.
  pub attempted :
      (left : ℕ)
      → (v.link.ports i).pending ≡ false
      → attempt_loop (suc left) i port cmd payload sequence result s ≡ done (result, true) v
  unfolding attempt_loop
  attempted left over =
      bind_done _ _ tt t yielded
      ∙ to_else _ _ _ t (ap not waits)
      ∙ bind_done _ _ (pos n) u sent
      ∙ bind_done _ _ result v waited
      ∙ to_then _ _ _ v (ap not over)

  -- An attempt whose frame is sent and whose wait passes in vain.
  missed :
      (left : ℕ)
      → (v.link.ports i).pending ≡ true
      → attempt_loop (suc (suc left)) i port cmd payload sequence result s
        ≡ attempt_loop
            (suc left)
            i
            port
            cmd
            payload
            sequence
            result
            (record v { link = stats_increment Counter.request_retries v.link })
  unfolding attempt_loop
  missed left still =
      bind_done _ _ tt t yielded
      ∙ to_else _ _ _ t (ap not waits)
      ∙ bind_done _ _ (pos n) u sent
      ∙ bind_done _ _ result v waited
      ∙ to_else _ _ _ v (ap not still)
      ∙ to_then (ltb 0 (suc left)) _ _ v (ltb-true 0 (suc left) (omega arith))

  -- The last attempt.
  last_missed :
      (v.link.ports i).pending ≡ true
      → attempt_loop 1 i port cmd payload sequence result s ≡ done (result, false) v
  unfolding attempt_loop
  last_missed still =
      bind_done _ _ tt t yielded
      ∙ to_else _ _ _ t (ap not waits)
      ∙ bind_done _ _ (pos n) u sent
      ∙ bind_done _ _ result v waited
      ∙ to_else _ _ _ v (ap not still)

pub two_attempts : (l : Link) → l.use_protocol_v2 ≡ true → max_attempts l ≡ 2
two_attempts l e = rw e refl

-- A turn of a wait in which its deadline passes and no other thread does anything.
abbrev pub silent : Turn
silent = record { others = []; outcome = etimedout }

-- The session after a frame that is sent and not answered in time.
abbrev pub unanswered : Link → Link
unanswered l = stats_increment Counter.request_retries (stats_increment Counter.tx_frames l)

module _ (i sequence : ℕ) (l : Link) where
  -- The request is announced in the session `l`.
  abbrev pub pending_in : List Turn → System → System
  pending_in turns s = record s { link = begin_request i sequence l; turns = turns }

  pub rested :
      (turns : List Turn) (s : System)
      → yield (pending_in (resting ∷ turns) s) ≡ done tt (pending_in turns s)
  unfolding yield run_others
  rested turns s = refl

  pub expects : ((begin_request i sequence l).ports i).pending ≡ true
  unfolding begin_request
  expects = rw (==-refl i) refl

  pub counted :
      (u : System)
      → u.link ≡ stats_increment Counter.tx_frames (begin_request i sequence l)
      → u.link ≡ begin_request i sequence (stats_increment Counter.tx_frames l)
  unfolding begin_request stats_increment
  counted u e = e

-- The request is announced, with the number and in the session that it takes.
abbrev pub announced : ℕ → List Turn → System → System
announced i turns s = pending_in i s.link.next_sequence (next_sequence s.link).0 turns s

silent_wait :
    (i : ℕ) (result : ℤ) (turns : List Turn) (u : System)
    → (u.link.ports i).pending ≡ true
    → wait_for_ack (silent ∷ turns) i result u ≡ done result (record u { turns = turns })
unfolding wait_for_ack run_others
silent_wait i result turns u waits = to_outcome (u.link.ports i).pending _ (done result u) waits

-- An attempt whose frame is sent and whose deadline passes.
module _ (i port cmd : ℕ) (payload : Buf) (sequence : ℕ) (result : ℤ) (l : Link) (rest : List Turn)
    (s u : System) (n : ℕ)
    (sent : send_frame port cmd payload sequence v2_flag_high_priority true
        (pending_in i sequence l (silent ∷ rest) s)
      ≡ done (pos n) u) where
  abbrev effect :
      (u.link ≡ stats_increment Counter.tx_frames (begin_request i sequence l))
      × (u.turns ≡ silent ∷ rest)
  effect =
      send_frame-Sends port cmd payload sequence v2_flag_high_priority true
        (pending_in i sequence l (silent ∷ rest) s) u (pos n) sent refl

  pub sent_link : u.link ≡ begin_request i sequence (stats_increment Counter.tx_frames l)
  sent_link = counted i sequence l u effect.0

  waiting_still : (u.link.ports i).pending ≡ true
  waiting_still =
      ap (λ k. (k.ports i).pending) sent_link
      ∙ expects i sequence (stats_increment Counter.tx_frames l)

  in_vain : wait_for_ack u.turns i result u ≡ done result (record u { turns = rest })
  in_vain =
      ap (λ turns. wait_for_ack turns i result u) effect.1
      ∙ silent_wait i result rest u waiting_still

  recounted :
      stats_increment Counter.request_retries u.link
      ≡ begin_request i sequence
          (stats_increment Counter.request_retries (stats_increment Counter.tx_frames l))
  unfolding stats_increment begin_request
  recounted = ap (stats_increment Counter.request_retries) sent_link

  pub missed_attempt :
      (left : ℕ)
      → attempt_loop
          (suc (suc left))
          i
          port
          cmd
          payload
          sequence
          result
          (pending_in i sequence l (resting ∷ silent ∷ rest) s)
        ≡ attempt_loop
            (suc left)
            i
            port
            cmd
            payload
            sequence
            result
            (pending_in i sequence (unanswered l) rest u)
  missed_attempt left =
      missed i port cmd payload sequence result
        (pending_in i sequence l (resting ∷ silent ∷ rest) s)
        (pending_in i sequence l (silent ∷ rest) s) u (record u { turns = rest }) n
        (rested i sequence l (silent ∷ rest) s) (expects i sequence l) sent in_vain left
        waiting_still
      ∙ ap
          (λ (k : Link).
            attempt_loop (suc left) i port cmd payload sequence result
              (record u { turns = rest; link = k }))
          recounted

  pub last_attempt :
      attempt_loop 1 i port cmd payload sequence result
        (pending_in i sequence l (resting ∷ silent ∷ rest) s)
      ≡ done (result, false) (record u { turns = rest })
  last_attempt =
      last_missed i port cmd payload sequence result
        (pending_in i sequence l (resting ∷ silent ∷ rest) s)
        (pending_in i sequence l (silent ∷ rest) s) u (record u { turns = rest }) n
        (rested i sequence l (silent ∷ rest) s) (expects i sequence l) sent in_vain waiting_still

-- A request of a valid port is one of its entry.
pub request-request_at :
    (port i cmd : ℕ)
    → is_valid_port port ≡ true
    → get_device port ≡ some i
    → (payload : Buf) (s : System) → request port cmd payload s ≡ request_at i port cmd payload s
unfolding request
request-request_at port i cmd valid entry payload s =
    ap
      (λ b.
        (if not b
            then pure (neg einval)
            else on_entry (get_device port) (λ j. request_at j port cmd payload))
          s)
      valid
    ∙ ap (λ o. on_entry o (λ j. request_at j port cmd payload) s) entry
