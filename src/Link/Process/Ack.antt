-- ===== src/Link/Process/Ack.antt =====
-- Which acknowledgements are taken: the case `RP_CMD_ID_ACK` of `process_command` in
-- src/raspike_protocol.c.
use libraspike_art.Base.{
  ℕ, ◌+◌, ◌≡◌, ◌≢◌, refl, ap, List, Bool, true, false, Bool-cases, not, ◌&&◌, ◌||◌, ◌==◌, ==_iff,
  ==-false, ==-refl, inl, inr, ℤ, pos, neg, is_neg, signed32,
}
use libraspike_art.Base.Errno.{estale}
use libraspike_art.Wire.Word.{u64, get_u32}
use libraspike_art.Link.State.{Link, PortDevice, stats_increment}
use libraspike_art.Link.Ports.{update_port}
use libraspike_art.Link.Process.{process_ack, ack_matches}

-- What an acknowledgement of `sequence` in `session` at entry `i` may do.
pub data AckStep (i sequence session : ℕ) (l : Link) : Link × ℤ → Type 0 where
  -- It ends the request that waits there: the current one, in the current session.
  completes :
      (l' : Link)
      → (l.ports i).pending ≡ true
      → (l.use_protocol_v2 ≡ true
          → (sequence ≡ (l.ports i).pending_sequence) × (session ≡ l.session_id))
      → (l'.ports i).pending ≡ false
      → ((j : ℕ) → j ≢ i → l'.ports j ≡ l.ports j)
      → l'.stats ≡ l.stats
      → AckStep i sequence session l (l', pos 0)
  -- It ends nothing, and is counted.
  is_stale :
      (l' : Link)
      → ((j : ℕ) → l'.ports j ≡ l.ports j)
      → l'.stats.stale_acks ≡ u64 (l.stats.stale_acks + 1)
      → AckStep i sequence session l (l', neg estale)

&&-both : (a b : Bool) → (a && b) ≡ true → (a ≡ true) × (b ≡ true)
&&-both true b h = (refl, h)
&&-both false b h = absurd cc

||-right : (a b : Bool) → (not a || b) ≡ true → a ≡ true → b ≡ true
||-right true b h e = h
||-right false b h e = absurd cc

-- That an acknowledgement matches means that it is the current request's.
pub ack_matches-current :
    (l : Link) (dev : PortDevice) (sequence session : ℕ) (ack_cmd : ℤ)
    → ack_matches l dev sequence session ack_cmd ≡ true
    → (dev.pending ≡ true)
      × (l.use_protocol_v2 ≡ true → (sequence ≡ dev.pending_sequence) × (session ≡ l.session_id))
ack_matches-current l dev sequence session ack_cmd h =
    let own =
      not l.use_protocol_v2 || (sequence == dev.pending_sequence && session == l.session_id) in
    let rest = &&-both (dev.pending && not (is_neg ack_cmd)) own h in
    let waits = &&-both dev.pending (not (is_neg ack_cmd)) rest.0 in
    (
      waits.0,
      λ v2.
          let same = &&-both (sequence == dev.pending_sequence) (session == l.session_id) (
            ||-right l.use_protocol_v2 (sequence == dev.pending_sequence && session == l.session_id)
              rest.1 v2) in
          ((==_iff sequence dev.pending_sequence).0 same.0, (==_iff session l.session_id).0 same.1),
    )

-- An entry is as before unless it is the one that is written.
pub update_port-other :
    (i j : ℕ) (dev : PortDevice) (l : Link) → j ≢ i → (update_port i dev l).ports j ≡ l.ports j
update_port-other i j dev l ne = rw (==-false j i ne) refl

pub update_port-same : (i : ℕ) (dev : PortDevice) (l : Link) → (update_port i dev l).ports i ≡ dev
update_port-same i dev l = rw (==-refl i) refl

-- An acknowledgement completes the request of its entry only if that request waits and, in
-- version 2, has the same sequence number and session. It then touches no other entry and no
-- counter. Any other acknowledgement leaves all entries alone, gives -ESTALE and is counted.
pub process_ack-AckStep :
    (i sequence session : ℕ) (buf : List ℕ) (l : Link)
    → AckStep i sequence session l (process_ack i sequence session buf l)
unfolding process_ack stats_increment
process_ack-AckStep i sequence session buf l =
    elim (Bool-cases (ack_matches l (l.ports i) sequence session (signed32 (get_u32 buf)))) [
      | inl e ↦
          let current =
            ack_matches-current l (l.ports i) sequence session (signed32 (get_u32 buf)) e in
          rw e (
            completes _ current.0 current.1 (ap (λ d. d.pending) (update_port-same i _ l))
              (λ j ne. update_port-other i j _ l ne) refl)
      | inr e ↦ rw e (is_stale _ (λ j. refl) refl)
    ]
