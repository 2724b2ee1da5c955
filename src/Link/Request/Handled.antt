-- ===== src/Link/Request/Handled.antt =====
-- The turn of the wait of `raspike_request`, src/raspike_protocol.c, in which the receiver handles the
-- acknowledgement.
use libraspike_art.Base.{
  ℕ, ◌<◌, ◌^◌, ◌≡◌, refl, sym, ap, ◌∙◌, List, [], ◌∷◌, ◌++◌, some, subst, Bool, true, false, not,
  ◌&&◌, ◌==◌, ==-refl, if◌then◌else◌, ℤ, pos, Outcome, Action, done, blocked, fault, bind_done,
  within_done,
}
use libraspike_art.Wire.Word.{put_u32}
use libraspike_art.Wire.Command.{cmd_ack}
use libraspike_art.Link.State.{Link, Counter, stats_increment}
use libraspike_art.Link.Ports.{is_valid_port, get_device, update_port}
use libraspike_art.Link.Process.{process_command, process_ack, dispatch}
use libraspike_art.Link.System.{
  is_null, System, Turn, Command, handles, run_other, run_others, on_link,
}
use libraspike_art.Link.Request.{begin_request, wait_for_ack}
use libraspike_art.Link.Request.Outcomes.{answered, process_ack-answered}

-- A wait for a request that is answered already returns at once.
wait_answered :
    (turns : List Turn) (i : ℕ) (result : ℤ) (s : System)
    → (s.link.ports i).pending ≡ false
    → wait_for_ack turns i result s ≡ done result s
unfolding wait_for_ack
wait_answered [] i result s e = rw e refl
wait_answered (t ∷ turns) i result s e = rw e refl

-- The branches of a test.
pub to_outcome :
    {A : Type 0} (b : Bool) (o o' : Outcome System A) → b ≡ true → (if b then o else o') ≡ o
to_outcome true o o' e = refl
to_outcome false o o' e = cc

to_outcome_else :
    {S A : Type 0} (b : Bool) (o o' : Outcome S A) → b ≡ false → (if b then o else o') ≡ o'
to_outcome_else true o o' e = cc
to_outcome_else false o o' e = refl

&&-false : (b : Bool) → (b && false) ≡ false
&&-false true = refl
&&-false false = refl

-- The acknowledgement of the request with the number `sequence` of the session, as the receiver hands
-- it over.
abbrev pub acknowledges : ℕ → ℕ → ℕ → ℕ → ℕ → Command
acknowledges port sequence session cmd value = record {
  port = port;
  cmd = cmd_ack;
  flags = 0;
  sequence = sequence;
  session = session;
  payload = put_u32 cmd ++ put_u32 value;
}

-- The turn in which the receiver handles it.
abbrev pub answering : Command → Turn
answering c = record { others = handles c ∷ []; outcome = 0 }

abbrev pub resting : Turn
resting = record { others = []; outcome = 0 }

one_answer :
    (c : Command) (l l' : Link) (ret : ℤ)
    → is_null l.desc ≡ false
    → process_command c.port c.cmd c.flags c.sequence c.session c.payload l ≡ done ret l'
    → run_others (handles c ∷ []) l ≡ done tt l'
unfolding run_others run_other
one_answer c l l' ret is_open e =
    bind_done _ _ tt l' (to_outcome_else (is_null l.desc) _ _ is_open ∙ bind_done _ _ ret l' e)

abbrev as_outcome : Link × ℤ → Outcome Link ℤ
as_outcome (l, ret) = done ret l

module _ (port i cmd value : ℕ) (valid : is_valid_port port ≡ true)
    (entry : get_device port ≡ some i) (cmd_lt : cmd < 256) (value_lt : value < 2 ^ 32) where
  dispatched :
      (sequence session : ℕ) (l l' : Link)
      → process_ack i sequence session (put_u32 cmd ++ put_u32 value) l ≡ (l', pos 0)
      → dispatch port cmd_ack sequence session (put_u32 cmd ++ put_u32 value) l ≡ done (pos 0) l'
  unfolding dispatch
  dispatched sequence session l l' e = rw entry (ap as_outcome e)

  handled :
      (sequence : ℕ) (l l' : Link)
      → process_ack i sequence l.session_id (put_u32 cmd ++ put_u32 value) l ≡ (l', pos 0)
      → process_command port cmd_ack 0 sequence l.session_id (put_u32 cmd ++ put_u32 value) l
        ≡ done (pos 0) l'
  unfolding process_command
  handled sequence l l' e =
      to_outcome_else (not (is_valid_port port)) _ _ (ap not valid)
      ∙ to_outcome_else (l.use_protocol_v2 && not (l.session_id == l.session_id)) _ _
          (ap (λ b. l.use_protocol_v2 && not b) (==-refl l.session_id) ∙ &&-false l.use_protocol_v2)
      ∙ dispatched sequence l.session_id l l' e

  -- The turn of the wait in which the answer comes.
  woken :
      (sequence : ℕ) (result : ℤ) (rest : List Turn) (u : System) (l' : Link)
      → is_null u.link.desc ≡ false
      → (u.link.ports i).pending ≡ true
      → process_ack i sequence u.link.session_id (put_u32 cmd ++ put_u32 value) u.link ≡ (l', pos 0)
      → (l'.ports i).pending ≡ false
      → wait_for_ack
          (answering (acknowledges port sequence u.link.session_id cmd value) ∷ rest)
          i
          result
          u
        ≡ done result (record u { turns = rest; link = l' })
  unfolding wait_for_ack
  woken sequence result rest u l' is_open waits e over =
      let c = acknowledges port sequence u.link.session_id cmd value in
      let following : Unit {0} → Action System ℤ = λ _. wait_for_ack rest i result in
      let turn : Outcome System (Unit {0}) =
        on_link (run_others (handles c ∷ [])) (record u { turns = rest }) in
      let v : System = record u { turns = rest; link = l' } in
      to_outcome (u.link.ports i).pending
        (elim turn [ done a s ↦ following a s | blocked ↦ blocked | fault ↦ fault ]) (done result u)
        waits
      ∙ bind_done turn following tt v (
          within_done (run_others (handles c ∷ []) u.link) (λ l s. record s { link = l })
            (record u { turns = rest }) tt l'
            (one_answer c u.link l' (pos 0) is_open (handled sequence u.link l' e)))
      ∙ wait_answered rest i result v over

  -- The session in which the request waits, and after its answer.
  module _ (sequence : ℕ) (l : Link) where
    abbrev pub waiting : Link
    waiting = begin_request i sequence (stats_increment Counter.tx_frames l)

    pub waits : (waiting.ports i).pending ≡ true
    unfolding begin_request
    waits = rw (==-refl i) refl

    abbrev pub acked : Link
    acked = (process_ack i sequence l.session_id (put_u32 cmd ++ put_u32 value) waiting).0

    answer : process_ack i sequence l.session_id (put_u32 cmd ++ put_u32 value) waiting ≡ (
      update_port i
          (answered cmd value cmd_lt value_lt i sequence (stats_increment Counter.tx_frames l))
          waiting,
      pos 0,
    )
    unfolding stats_increment
    answer =
        process_ack-answered cmd value cmd_lt value_lt i sequence
          (stats_increment Counter.tx_frames l)

    pub acked_over : (acked.ports i).pending ≡ false
    acked_over = ap (λ p. (p.0.ports i).pending) answer ∙ rw (==-refl i) refl

    acked_lem :
        process_ack i sequence l.session_id (put_u32 cmd ++ put_u32 value) waiting ≡ (acked, pos 0)
    acked_lem = ap (λ p. (acked, p.1)) answer

  -- The wait of a request whose frame is sent and whose next turn brings the answer.
  pub answered_wait :
      (sequence : ℕ) (result : ℤ) (rest : List Turn) (l : Link) (u : System)
      → is_null l.desc ≡ false
      → u.link ≡ waiting sequence l
      → u.turns ≡ answering (acknowledges port sequence l.session_id cmd value) ∷ rest
      → wait_for_ack u.turns i result u
        ≡ done result (record u { turns = rest; link = acked sequence l })
  unfolding begin_request stats_increment
  answered_wait sequence result rest l u is_open link turns =
      subst
        (λ (x : System).
          wait_for_ack x.turns i result x
          ≡ done result (record x { turns = rest; link = acked sequence l }))
        (sym restored)
        (woken sequence result rest expected (acked sequence l) is_open (waits sequence l)
          (acked_lem sequence l) (acked_over sequence l))
    where
      expected : System
      expected = record u {
        link = waiting sequence l;
        turns = answering (acknowledges port sequence l.session_id cmd value) ∷ rest;
      }

      restored : u ≡ expected
      restored j = record u { link = link j; turns = turns j }
