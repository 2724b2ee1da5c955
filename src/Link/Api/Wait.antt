-- ===== src/Link/Api/Wait.antt =====
-- The waits for a port's command: `raspike_wait_port_cmd_change` and
-- `raspike_port_com_change_if_needed` of src/raspike_protocol.c.
use libraspike_art.Base.{
  ℕ, ◌≡◌, refl, List, [], ◌∷◌, Option, none, some, true, not, ◌&&◌, ◌||◌, ◌==◌, ==_iff, leb,
  Bool-cases, inl, inr, if◌then◌else◌, ℤ, pos, neg, is_neg, Action, done, Ends, bind-Ends,
  Ends-trivial, Ends-done, pure, ◌>>=◌,
}
use libraspike_art.Base.Errno.{einval, eintr, etimedout}
use libraspike_art.Com.Fd.{null}
use libraspike_art.Link.System.{is_null, System, Turn, on_link, run_others}
use libraspike_art.Link.Send.{prot_send_priority}
use libraspike_art.Link.State.{device_port_count}
use libraspike_art.Link.Api.{
  port_cmd, on_status, wait_port_loop, wait_port_cmd_change, port_com_change_if_needed,
}

-- The hub sends the values of `cmd` on the port.
pub record Shows (port cmd : ℕ) (s : System) : Type 0 where
  pub status : List ℕ
  pub saved : s.link.status ≡ some status
  pub shown : port_cmd status port ≡ cmd

-- If the result is 0.
abbrev pub Reached : ℕ → ℕ → ℤ → System → Type 0
Reached port cmd ret s = ret ≡ pos 0 → Shows port cmd s

abbrev Any : {A : Type 0} → A → System → Type 0
Any a s = Unit

on_status-Ends :
    {A : Type 0} (P : A → System → Type 0) (o : Option (List ℕ)) (f : List ℕ → Action System A)
    (s : System)
    → ((status : List ℕ) → o ≡ some status → Ends P (f status s))
    → Ends P (on_status o f s)
on_status-Ends P none f s h = tt
on_status-Ends P (some status) f s h = h status refl

shows :
    (port cmd : ℕ) (status : List ℕ) (s : System)
    → s.link.status ≡ some status
    → (port_cmd status port == cmd) ≡ true
    → Reached port cmd (pos 0) s
shows port cmd status s saved test h = record {
  status = status;
  saved = saved;
  shown = (==_iff (port_cmd status port) cmd).0 test;
}

wait_port_loop-Reached :
    (turns : List Turn) (port cmd : ℕ) (s : System)
    → Ends (Reached port cmd) (wait_port_loop turns port cmd s)
unfolding wait_port_loop
wait_port_loop-Reached [] port cmd s =
    on_status-Ends (Reached port cmd) s.link.status _ s (λ status e.
      elim (Bool-cases (port_cmd status port == cmd)) [
        | inl test ↦ rw test (shows port cmd status s e test)
        | inr test ↦ rw test tt
      ])
wait_port_loop-Reached (t ∷ turns) port cmd s =
    on_status-Ends (Reached port cmd) s.link.status _ s (λ status e.
      elim (Bool-cases (port_cmd status port == cmd)) [
        | inl test ↦ rw test (shows port cmd status s e test)
        | inr test ↦ rw test (
            bind-Ends Any (Reached port cmd)
              (on_link (run_others t.others) (record s { turns = turns })) _
              (Ends-trivial Any _ (λ a u. tt))
              (λ a u _. woken (wait_port_loop-Reached turns port cmd) u))
      ])
  where
    woken :
        ((u : System) → Ends (Reached port cmd) (wait_port_loop turns port cmd u))
        → (u : System)
        → Ends (Reached port cmd) (
            (if t.outcome == etimedout
                then pure (neg etimedout)
                else if not (t.outcome == 0) && not (t.outcome == eintr)
                then pure (neg t.outcome)
                else wait_port_loop turns port cmd)
              u)
    woken later u = elim (Bool-cases (t.outcome == etimedout)) [
      | inl e ↦ rw e (λ h. absurd cc)
      | inr e ↦ elim (Bool-cases (not (t.outcome == 0) && not (t.outcome == eintr))) [
        | inl e' ↦ rw (e, e') (λ h. absurd cc)
        | inr e' ↦ rw (e, e') (later u)
      ]
    ]

refused : (ret port cmd : ℕ) (s : System) → Reached port cmd (neg ret) s
refused ret port cmd s h = absurd cc

wait_port_cmd_change-Reached :
    (port cmd : ℕ) (s : System) → Ends (Reached port cmd) (wait_port_cmd_change port cmd s)
unfolding wait_port_cmd_change
wait_port_cmd_change-Reached port cmd s =
    elim (Bool-cases (leb device_port_count port || is_null s.link.status)) [
      | inl e ↦ rw e (refused einval port cmd s)
      | inr e ↦ rw e (wait_port_loop-Reached s.turns port cmd s)
    ]

sent_or_waits :
    (port cmd : ℕ) (s : System)
    → Ends (Reached port cmd) (
        (do
          sent ← prot_send_priority port cmd (null (pos 0))
          if is_neg sent then pure sent else wait_port_cmd_change port cmd)
          s)
sent_or_waits port cmd s =
    bind-Ends Any (Reached port cmd) (prot_send_priority port cmd (null (pos 0)) s) _
      (Ends-trivial Any _ (λ a u. tt))
      (λ sent u _. elim (Bool-cases (is_neg sent)) [
        | inl e ↦ rw e (λ h. absurd cc)
        | inr e ↦ rw e (wait_port_cmd_change-Reached port cmd u)
      ])

pub change-Ends :
    (port cmd : ℕ) (s : System) → Ends (Reached port cmd) (port_com_change_if_needed port cmd s)
unfolding port_com_change_if_needed
change-Ends port cmd s = elim (Bool-cases (leb device_port_count port || is_null s.link.status)) [
  | inl e ↦ rw e (refused einval port cmd s)
  | inr e ↦ rw e (
      on_status-Ends (Reached port cmd) s.link.status _ s (λ status saved.
        elim (Bool-cases (port_cmd status port == cmd)) [
          | inl test ↦ rw test (shows port cmd status s saved test)
          | inr test ↦ rw test (sent_or_waits port cmd s)
        ]))
]

-- When `raspike_port_com_change_if_needed` returns 0, the saved status says that the port sends what
-- was asked for, whether it did so before or was told to, and whatever the other threads did.
pub port_com_change_if_needed-Shows :
    (port cmd : ℕ) (s s' : System)
    → port_com_change_if_needed port cmd s ≡ done (pos 0) s'
    → Shows port cmd s'
port_com_change_if_needed-Shows port cmd s s' e =
    Ends-done (Reached port cmd) (port_com_change_if_needed port cmd s) (change-Ends port cmd s)
      (pos 0) s' e refl
