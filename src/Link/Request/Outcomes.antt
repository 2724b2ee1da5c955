-- ===== src/Link/Request/Outcomes.antt =====
-- How a request ends: `raspike_request` of src/raspike_protocol.c together with the acknowledgements,
-- the hellos and the resets that other threads handle while it waits.
use libraspike_art.Base.{
  ℕ, ◌<◌, ◌^◌, ◌≡◌, ◌≢◌, refl, sym, ap, ◌∙◌, List, [], ◌++◌, append-nil, length, drop, Bool, true,
  false, not, ◌||◌, ◌&&◌, ==-false, ==-refl, ltb-true, Bool-cases, inl, inr, ℤ, pos, neg, ◌==ℤ◌,
  signed32, Outcome, done, blocked, fault, done-state, arith,
}
use libraspike_art.Base.Errno.{estale, etimedout}
use libraspike_art.Com.Fd.{Buf}
use libraspike_art.Link.System.{System}
use libraspike_art.Wire.Word.{byte, get_u32, put_u32}
use libraspike_art.Wire.Word.Round.{get_u32-put_u32}
use libraspike_art.Wire.Layout.{v2_hello_payload_size, v2_version}
use libraspike_art.Link.State.{Link, PortDevice, port_number, stats_increment}
use libraspike_art.Link.Ports.{reset_port, reset_port_state, next_sequence, update_port}
use libraspike_art.Link.Process.{process_hello_payload, process_ack, ack_matches}
use libraspike_art.Link.Request.{begin_request, answers, finish_request, finish, request_at}

-- An entry that waits when all entries are reset with `error` waits no more, and its request then
-- ends with `error`.
pub reset_port_state-finish :
    (i cmd sequence : ℕ) (result error : ℤ) (clear_devices : Bool) (l : Link)
    → i < port_number
    → (l.ports i).pending ≡ true
    → (((reset_port_state error clear_devices l).ports i).pending ≡ false)
      × ((finish_request i cmd sequence result true (reset_port_state error clear_devices l)).1
          ≡ error)
unfolding reset_port_state reset_port finish_request
reset_port_state-finish i cmd sequence result error true l h waits =
    rw (ltb-true i 7 h, waits) (refl, refl)
reset_port_state-finish i cmd sequence result error false l h waits =
    rw (ltb-true i 7 h, waits) (refl, refl)

-- A hello of version 2 with a new session number ends the requests of the old session: a request
-- that waits at any entry of the table gets -ESTALE, whatever it asked for.
pub process_hello_payload-finish :
    (buf : List ℕ) (i cmd sequence : ℕ) (result : ℤ) (l : Link)
    → length buf ≡ v2_hello_payload_size
    → byte buf 0 ≡ v2_version
    → get_u32 (drop 4 buf) ≢ 0
    → get_u32 (drop 4 buf) ≢ l.session_id
    → i < port_number
    → (l.ports i).pending ≡ true
    → (((process_hello_payload buf l).ports i).pending ≡ false)
      × ((finish_request i cmd sequence result true (process_hello_payload buf l)).1 ≡ neg estale)
unfolding process_hello_payload finish_request reset_port_state reset_port
process_hello_payload-finish buf i cmd sequence result l size version some_session new_session h
      waits =
    rw
      (
        size,
        version,
        ==-false (get_u32 (drop 4 buf)) 0 some_session,
        ==-false (get_u32 (drop 4 buf)) l.session_id new_session,
        ltb-true i 7 h,
        waits,
      )
      (refl, refl)

-- When a request ends, its entry waits no more.
finish_request-ends :
    (i cmd sequence : ℕ) (result : ℤ) (completed : Bool) (l : Link)
    → (((finish_request i cmd sequence result completed l).0).ports i).pending ≡ false
unfolding finish_request stats_increment
finish_request-ends i cmd sequence result completed l =
    elim (Bool-cases (completed && ((l.ports i).ack_cmd ==ℤ neg 1))) [
      | inl e ↦ rw (e, ==-refl i) refl
      | inr e ↦ elim (Bool-cases (completed && answers l (l.ports i) cmd sequence)) [
        | inl e' ↦ rw (e, e', ==-refl i) refl
        | inr e' ↦ elim (Bool-cases (result ==ℤ neg etimedout)) [
          | inl e'' ↦ rw (e, e', e'', ==-refl i) refl
          | inr e'' ↦ rw (e, e', e'', ==-refl i) refl
        ]
      ]
    ]

-- Whenever `raspike_request` returns from a valid port, with an answer, an error or a timeout, no
-- request waits at its entry any more.
pub request_at-ends :
    (i port cmd : ℕ) (payload : Buf) (s s' : System) (ret : ℤ)
    → request_at i port cmd payload s ≡ done ret s'
    → (s'.link.ports i).pending ≡ false
unfolding request_at next_sequence begin_request
request_at-ends i port cmd payload s s' ret e = ended _ e
  where
    sequence : ℕ
    sequence = s.link.next_sequence

    ended :
        (o : Outcome System (ℤ × Bool))
        → ◌≡◌ {A = Outcome System ℤ}
            (elim o [ done p t ↦ finish i cmd sequence p t | blocked ↦ blocked | fault ↦ fault ])
            (done ret s')
        → (s'.link.ports i).pending ≡ false
    ended (done (result, completed) t) h =
        ap (λ u. (u.link.ports i).pending) (sym (done-state h))
        ∙ finish_request-ends i cmd sequence result completed t.link
    ended blocked h = absurd cc
    ended fault h = absurd cc

||-true : (b : Bool) → (b || true) ≡ true
||-true true = refl
||-true false = refl

-- The two words of an acknowledgement.
module _ (cmd value : ℕ) (cmd_lt : cmd < 256) (value_lt : value < 2 ^ 32) where
  abbrev pub words : List ℕ
  words = put_u32 cmd ++ put_u32 value

  command_read : signed32 (get_u32 words) ≡ pos cmd
  command_read =
      rw
        (
          get_u32-put_u32 cmd (put_u32 value) (omega (arith, cmd_lt)),
          ltb-true cmd (2 ^ 31) (omega (arith, cmd_lt)),
        )
        refl

  value_read : get_u32 (drop 4 words) ≡ value
  value_read = ap get_u32 (sym behind) ∙ get_u32-put_u32 value [] value_lt
    where
      behind : put_u32 value ++ [] ≡ drop 4 words
      behind = append-nil (put_u32 value) ∙ unfold put_u32 in refl

  -- The entry after the acknowledgement.
  abbrev pub answered : ℕ → ℕ → Link → PortDevice
  answered i sequence l = record ((begin_request i sequence l).ports i) {
    ack_cmd = signed32 (get_u32 words);
    ack_data = signed32 (get_u32 (drop 4 words));
    ack_sequence = sequence;
    ack_session = l.session_id;
    pending = false;
  }

  pub process_ack-answered :
      (i sequence : ℕ) (l : Link)
      → process_ack i sequence l.session_id words (begin_request i sequence l)
        ≡ (update_port i (answered i sequence l) (begin_request i sequence l), pos 0)
  unfolding process_ack begin_request
  process_ack-answered i sequence l = rw matched refl
    where
      matched :
          ack_matches
            (begin_request i sequence l)
            ((begin_request i sequence l).ports i)
            sequence
            l.session_id
            (signed32 (get_u32 words))
          ≡ true
      matched =
          rw (command_read, ==-refl i, ==-refl sequence, ==-refl l.session_id)
            (||-true (not l.use_protocol_v2))

  finish_request-answered :
      (i sequence : ℕ) (result : ℤ) (l : Link)
      → (finish_request i cmd sequence result true
          (update_port i (answered i sequence l) (begin_request i sequence l))).1
        ≡ signed32 (get_u32 (drop 4 words))
  unfolding begin_request finish_request
  finish_request-answered i sequence result l =
      rw
        (
          ==-refl i,
          command_read,
          ==-refl cmd,
          ==-refl sequence,
          ==-refl l.session_id,
          ||-true (not l.use_protocol_v2),
        )
        refl

  finish_request-stats :
      (i sequence : ℕ) (result : ℤ) (l : Link)
      → (finish_request i cmd sequence result true
          (update_port i (answered i sequence l) (begin_request i sequence l))).0.stats
        ≡ l.stats
  unfolding begin_request finish_request
  finish_request-stats i sequence result l =
      rw
        (
          ==-refl i,
          command_read,
          ==-refl cmd,
          ==-refl sequence,
          ==-refl l.session_id,
          ||-true (not l.use_protocol_v2),
        )
        refl

  -- The answer and the end of the request count nothing.
  pub process_ack-finish_stats :
      (i sequence : ℕ) (result : ℤ) (l : Link)
      → (finish_request i cmd sequence result true
          (process_ack i sequence l.session_id
            (put_u32 cmd ++ put_u32 value)
            (begin_request i sequence l)).0).0.stats
        ≡ l.stats
  process_ack-finish_stats i sequence result l =
      ap (λ p. (finish_request i cmd sequence result true p.0).0.stats)
        (process_ack-answered i sequence l)
      ∙ finish_request-stats i sequence result l

  -- An acknowledgement with the sequence number and the session of the request that waits, and with
  -- its command, ends the request with the 32-bit value that it carries, read as a signed number.
  pub process_ack-finish :
      (i sequence : ℕ) (result : ℤ) (l : Link)
      → (finish_request i cmd sequence result true
          (process_ack i sequence l.session_id
            (put_u32 cmd ++ put_u32 value)
            (begin_request i sequence l)).0).1
        ≡ signed32 value
  process_ack-finish i sequence result l =
      ap (λ p. (finish_request i cmd sequence result true p.0).1)
        (process_ack-answered i sequence l)
      ∙ finish_request-answered i sequence result l
      ∙ ap signed32 value_read
