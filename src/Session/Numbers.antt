-- ===== src/Session/Numbers.antt =====
-- The sequence numbers of src/raspike_protocol.c in every state that the calls reach.
use libraspike_art.Base.{◌^◌, ◌<◌, ◌≢◌, Ends-done, arith}
use libraspike_art.Link.Ports.{next_sequence}
use libraspike_art.Link.Ports.Sequence.{next_sequence-InRange}
use libraspike_art.Link.System.{System}
use libraspike_art.Link.Lifecycle.{prot_shutdown}
use libraspike_art.Link.Lifecycle.Numbered.{
  Numbered, Numbered-Stable, Numbered-Keeps, prot_init-Numbered, prot_shutdown-Numbered,
}
use libraspike_art.Session.{initial, Reach}
use libraspike_art.Session.Invariant.{Invariant, Reach-Holds}

initial-Numbered : Numbered initial
unfolding initial
initial-Numbered = (omega arith, omega arith)

Numbered-Invariant : Invariant Numbered
Numbered-Invariant = record {
  stable = Numbered-Stable;
  frames = Numbered-Keeps;
  at_start = initial-Numbered;
  inits = λ version allocated desc s s' ret e h.
      Ends-done (λ _ (t : System). Numbered t.link) _
        (prot_init-Numbered version allocated desc s h) ret s' e;
  shuts_down = λ s s' ret e h.
      Ends-done (λ _ (t : System). Numbered t.link) (prot_shutdown s) (prot_shutdown-Numbered s h)
        ret s' e;
  clears = λ port l h. h;
}

-- In every state that calls reach one after the other, in any order, while in the turns that they give
-- other threads these handle commands, leave or go through a shutdown, the sequence number that the next
-- frame takes is a 32-bit number other than 0, and the one after it is another one.
pub Reach-next_sequence :
    (s : System)
    → Reach s
    → (0 < (next_sequence s.link).1)
      × (((next_sequence s.link).1 < 2 ^ 32)
          × ((next_sequence (next_sequence s.link).0).1 ≢ (next_sequence s.link).1))
unfolding next_sequence
Reach-next_sequence s reached =
    let numbered = Reach-Holds Numbered Numbered-Invariant s reached in
    let (_, (_, (_, other))) = next_sequence-InRange s.link numbered.0 numbered.1 in
    (numbered.0, (numbered.1, other))
