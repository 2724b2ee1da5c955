-- ===== src/Link/System/Keeps.antt =====
-- What the other threads do to the session while a call waits: a property of the session that counting,
-- the commands, the table and the flags of a shutdown leave alone is kept by them.
use libraspike_art.Base.{
  ℕ, List, [], ◌∷◌, Option, none, true, false, ◌≡◌, Bool-cases, inl, inr, Outcome, Action, done,
  blocked, fault, Calm, Post, bind-Post, within-Post,
}
use libraspike_art.Com.Usb.{Com, Descriptor}
use libraspike_art.Link.State.{Link, PortDevice, Counter, stats_increment}
use libraspike_art.Link.Ports.{reset_port_state, bump_sequence}
use libraspike_art.Link.Process.{process_command}
use libraspike_art.Link.System.{
  System, Turn, Other, handles, leaves, stops, cancels, frees, ends, is_null, free_status,
  clear_session, run_other, run_others, on_desc, yield, maybe_turn,
}

pub record Stable (bad : Type 0) (P : Link → Type 0) : Type 0 where
  pub counts : (k : Counter) (l : Link) → P l → P (stats_increment k l)
  -- A receiver is inside only while the session has its descriptor.
  pub handles :
      (port cmd flags sequence session : ℕ) (buf : List ℕ) (l : Link)
      → is_null l.desc ≡ false
      → P l
      → Post bad (λ _. P) (process_command port cmd flags sequence session buf l)
  pub entries : (ports : ℕ → PortDevice) (l : Link) → P l → P (record l { ports = ports })
  pub sequences : (l : Link) → P l → P (record l { next_sequence = bump_sequence l.next_sequence })
  pub receivers : (n : ℕ) (l : Link) → P l → P (record l { active_receivers = n })
  pub stopped : (l : Link) → P l → P (record l { stop_communication = true })
  pub cancelled : (l : Link) → P l → P (record l { desc = none })
  pub freed : (l : Link) → is_null l.desc ≡ true → P l → P (free_status l)
  pub ended : (l : Link) → is_null l.desc ≡ true → P l → P (clear_session l)

module _ (bad : Type 0) (P : Link → Type 0) (stable : Stable bad P) where
  abbrev pub Holds : {A : Type 0} → A → System → Type 0
  Holds a s = P s.link

  pub on_desc-Holds :
      {A : Type 0} (f : Option Descriptor → Action Com A) (s : System)
      → Calm (f s.link.desc s.line)
      → P s.link
      → Post bad Holds (on_desc f s)
  on_desc-Holds f s calm h =
      within-Post bad Holds (f s.link.desc s.line) (λ c s. record s { line = c }) s calm (λ a c. h)

  run_other-Post : (o : Other) (l : Link) → P l → Post bad (λ _. P) (run_other o l)
  unfolding run_other reset_port_state
  run_other-Post (handles c) l h = elim (Bool-cases (is_null l.desc)) [
    | inl e ↦ rw e h
    | inr e ↦ rw e (
        bind-Post bad (λ _. P) (λ _. P)
          (process_command c.port c.cmd c.flags c.sequence c.session c.payload l) _
          (stable.handles c.port c.cmd c.flags c.sequence c.session c.payload l e h) (λ a m k. k))
  ]
  run_other-Post leaves l h = stable.receivers _ l h
  run_other-Post stops l h = stable.stopped l h
  run_other-Post cancels l h = stable.entries _ (record l { desc = none }) (stable.cancelled l h)
  run_other-Post frees l h = elim (Bool-cases (is_null l.desc)) [
    | inl e ↦ rw e (stable.freed l e h)
    | inr e ↦ rw e h
  ]
  run_other-Post ends l h = elim (Bool-cases (is_null l.desc)) [
    | inl e ↦ rw e (stable.ended l e h)
    | inr e ↦ rw e h
  ]

  pub run_others-Post : (os : List Other) (l : Link) → P l → Post bad (λ _. P) (run_others os l)
  unfolding run_others
  run_others-Post [] l h = h
  run_others-Post (o ∷ os) l h =
      bind-Post bad (λ _. P) (λ _. P) (run_other o l) _ (run_other-Post o l h)
        (λ a m k. run_others-Post os m k)

  pub on_link-Holds :
      {A : Type 0} (o : Outcome Link A) (s : System)
      → Post bad (λ _. P) o
      → Post bad Holds (elim o as (λ _. Outcome System A) [
        | done a m ↦ done a (record s { link = m })
        | blocked ↦ blocked
        | fault ↦ fault
      ])
  on_link-Holds (done a m) s k = k
  on_link-Holds blocked s k = tt
  on_link-Holds fault s k = k

  turn-Holds : (turns : List Turn) (s : System) → P s.link → Post bad Holds (maybe_turn turns s)
  turn-Holds [] s h = h
  turn-Holds (t ∷ turns) s h =
      on_link-Holds (run_others t.others s.link) (record s { turns = turns })
        (run_others-Post t.others s.link h)

  pub yield-Holds : (s : System) → P s.link → Post bad Holds (yield s)
  unfolding yield
  yield-Holds s h = turn-Holds s.turns s h
