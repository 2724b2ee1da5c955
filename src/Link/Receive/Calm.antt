-- ===== src/Link/Receive/Calm.antt =====
-- `raspike_prot_receive` of src/raspike_protocol.c as a whole, by what its parts keep.
use libraspike_art.Base.{
  ℕ, not, ◌||◌, Bool-cases, Bool, inl, inr, true, false, ◌⊎◌, refl, ◌≡◌, Post, bind-Post,
}
use libraspike_art.Link.State.{Link}
use libraspike_art.Link.System.{is_null, System}
use libraspike_art.Link.Receive.{prot_receive, receive_started, enter}
use libraspike_art.Link.Receive.Keeps.{Keeps, started-Same}

gate_open : (a b c : Bool) → (a || b || not c) ≡ false → (b ≡ false) × (c ≡ true)
gate_open false false true e = (refl, refl)
gate_open false true c e = absurd cc
gate_open true b c e = absurd cc
gate_open false false false e = absurd cc

-- A property that the count of the receivers does not touch holds after `raspike_prot_receive`, if it
-- is kept by counting and by the commands and holds where the receiver may enter; or the call was
-- refused.
pub prot_receive-Post :
    (bad : Type 0) (P : Link → Type 0)
    → Keeps bad P
    → ((n : ℕ) (l : Link) → P l → P (record l { active_receivers = n }))
    → (s : System) → (is_null s.link.desc ≡ false → s.link.handshake_complete ≡ true → P s.link)
    → Post bad (λ _ t. (t ≡ s) ⊎ P t.link) (prot_receive s)
unfolding prot_receive
prot_receive-Post bad P keeps receivers s h =
    elim (Bool-cases
      (s.link.stop_communication || is_null s.link.desc || not s.link.handshake_complete)) [
        | inl shut ↦ rw shut (inl refl)
        | inr open_gate ↦
            let (is_open, complete) =
              gate_open s.link.stop_communication (is_null s.link.desc) s.link.handshake_complete
                open_gate in
            rw open_gate (
              bind-Post bad (λ _ t. P t.link) (λ _ t. (t ≡ s) ⊎ P t.link)
                (receive_started (record s { link = enter s.link })) _
                (started-Same bad P keeps (record s { link = enter s.link })
                  (receivers _ s.link (h is_open complete)))
                (λ a t k. inr (receivers _ t.link k)))
      ]
