-- ===== src/Link/Ports/Sequence.antt =====
-- The sequence numbers: `next_sequence` of src/raspike_protocol.c.
use libraspike_art.Base.{◌^◌, ◌<◌, ◌≡◌, ◌≢◌, refl, arith}
use libraspike_art.Link.State.{Link}
use libraspike_art.Link.Ports.{next_sequence}

-- The sequence number that `next_sequence` gives is the counter, the counter stays a 32-bit number
-- other than 0 for ever, and the number that is given next is another one.
pub next_sequence-InRange :
    (l : Link)
    → 0 < l.next_sequence
    → l.next_sequence < 2 ^ 32
    → ((next_sequence l).1 ≡ l.next_sequence)
      × ((0 < (next_sequence l).0.next_sequence)
          × (((next_sequence l).0.next_sequence < 2 ^ 32)
              × ((next_sequence (next_sequence l).0).1 ≢ (next_sequence l).1)))
unfolding next_sequence
next_sequence-InRange l nonzero small =
    (refl, (ground arith, (ground arith, λ e. absurd (ground arith))))
