-- ===== src/Link/Receive/Balance.antt =====
-- The session before and after `raspike_prot_receive` of src/raspike_protocol.c, by itself.
use libraspike_art.Base.{
  ◌≡◌, not, ◌||◌, Bool-cases, inl, inr, ℤ, Outcome, done, blocked, fault, Ends, Post, bind-Post,
  Post-done, arith,
}
use libraspike_art.Link.State.{Link, stats_increment}
use libraspike_art.Link.Process.{process_command}
use libraspike_art.Link.Process.Kept.{
  Kept, KeptBy, all_refl, Kept-trans, stats-Kept, process_command-Kept,
}
use libraspike_art.Link.System.{is_null, System}
use libraspike_art.Link.Receive.{receive_started, prot_receive, enter, leave}
use libraspike_art.Link.Receive.Keeps.{Keeps, started-Same}

-- Between the entry and the exit of the receiver the count of the receivers is one more.
left-Kept : (l m : Link) → Kept (enter l) m → Kept l (leave m)
left-Kept l m h = record {
  desc = h.desc;
  handshake_complete = h.handshake_complete;
  stop_communication = h.stop_communication;
  use_protocol_v2 = h.use_protocol_v2;
  active_receivers = omega (arith, h.active_receivers);
  next_sequence = h.next_sequence;
  session = h.session;
}

Kept-Keeps : (l : Link) → Keeps Unit (Kept l)
Kept-Keeps l = record {
  counts = λ k m h. Kept-trans l m (stats_increment k m) h (stats-Kept m k);
  handles = λ port cmd flags sequence session buf m h.
      later m h (process_command port cmd flags sequence session buf m)
        (process_command-Kept m port cmd flags sequence session buf);
}
  where
    later :
        (m : Link) → Kept l m → (o : Outcome Link ℤ) → Ends (KeptBy m) o → Post Unit (λ _. Kept l) o
    later m h (done a n) k = Kept-trans l m n h k
    later m h blocked k = tt
    later m h fault k = tt

receive-Post : (s : System) → Post Unit (λ _ t. Kept s.link t.link) (prot_receive s)
unfolding prot_receive
receive-Post s =
    elim (Bool-cases
      (s.link.stop_communication || is_null s.link.desc || not s.link.handshake_complete)) [
        | inl e ↦ rw e (all_refl s.link)
        | inr e ↦ rw e (
            bind-Post Unit (λ _ t. Kept (enter s.link) t.link) (λ _ t. Kept s.link t.link)
              (receive_started (record s { link = enter s.link })) _
              (started-Same Unit (Kept (enter s.link)) (Kept-Keeps (enter s.link))
                (record s { link = enter s.link }) (all_refl (enter s.link)))
              (λ a t h. left-Kept s.link t.link h))
      ]

-- What `raspike_prot_receive` does of itself, while no other thread changes the session: whenever it
-- returns, on any bytes and with any result, the receiver is counted out again; the descriptor, the
-- protocol version, the flags that the session is complete and not stopped, and the sequence numbers are
-- as they were; and the number of the session is as it was or another one that is not 0.
pub prot_receive-Kept :
    (s s' : System) (ret : ℤ) → prot_receive s ≡ done ret s' → Kept s.link s'.link
prot_receive-Kept s s' ret e =
    Post-done (λ _ t. Kept s.link t.link) Unit (prot_receive s) (receive-Post s) ret s' e
