-- ===== src/Link/Lifecycle/Safety.antt =====
-- What `raspike_prot_init` and `raspike_prot_shutdown` of src/raspike_protocol.c leave behind.
use libraspike_art.Base.{
  ℕ, ◌<◌, ◌≡◌, refl, ap, ◌∙◌, List, [], ◌∷◌, Option, none, some, true, false, Bool-cases, inl, inr,
  ltb, ltb-true, ℤ, pos, neg, is_neg, Outcome, done, Ends, bind-Ends, within-Ends, pure, ◌>>=◌,
  Ends-trivial, Ends-done, arith, within,
}
use libraspike_art.Base.Errno.{enotconn}
use libraspike_art.Com.Usb.{Descriptor, com_flush, com_close, usb_set_mode}
use libraspike_art.Link.State.{Link, port_number}
use libraspike_art.Link.Ports.{no_device, reset_port, reset_port_state}
use libraspike_art.Link.Process.{zero_status}
use libraspike_art.Link.System.{System, Turn, on_link, run_others}
use libraspike_art.Link.Lifecycle.Negotiated.{Negotiated, Succeeds}
use libraspike_art.Link.Lifecycle.{
  Version, wait_receivers, flush_and_close, end_session, prot_shutdown,
}

-- The hub has exactly the version.
pub record HasVersion (version : Version) (l : Link) : Type 0 where
  pub major : l.version_major ≡ version.major
  pub minor : l.version_minor ≡ version.minor
  pub patch : l.version_patch ≡ version.patch

-- The session has its descriptor and its status, and it is not told to stop.
pub record Opened (desc : Descriptor) (l : Link) : Type 0 where
  pub not_stopped : l.stop_communication ≡ false
  pub has_desc : l.desc ≡ some desc
  pub has_status : l.status ≡ some zero_status

-- What has become of the library when `raspike_prot_init` returns.
pub data InitResult (version : Version) (s : System) : Option Descriptor → ℤ → System → Type 0 where
  -- It was refused, and the running session is as it was.
  refused :
      (given : Option Descriptor) (ret : ℤ) → is_neg ret ≡ true → InitResult version s given ret s
  -- It failed, and there is neither a descriptor nor a status that a later call could use.
  failed :
      (given : Option Descriptor) (ret : ℤ) (s' : System)
      → is_neg ret ≡ true
      → s'.link.status ≡ none
      → s'.link.desc ≡ none
      → InitResult version s given ret s'
  -- It has succeeded with the descriptor that it was given.
  connected :
      (given : Descriptor) (s' : System)
      → s'.link.handshake_complete ≡ true
      → Opened given s'.link
      → HasVersion version s'.link
      → Negotiated s'
      → InitResult version s (some given) (pos 0) s'

abbrev Any : {A : Type 0} → A → System → Type 0
Any a s = Unit

module _ (version : Version) (desc : Descriptor) where
  abbrev Open : {A : Type 0} → A → System → Type 0
  Open a s = Opened desc s.link

  -- A session of a hub that has the version that is expected.
  abbrev Expected : Link → Type 0
  Expected l = Opened desc l × HasVersion version l

  -- A hello that was received in such a session.
  abbrev Greeted : ℤ → System → Type 0
  Greeted ret s = Succeeds ret s × Expected s.link

  abbrev Complete : Unit {0} → System → Type 0
  Complete a w = (w.link.handshake_complete ≡ true) × (Expected w.link × Negotiated w)

  abbrev completed : System → System
  completed v = record v { link = record v.link { handshake_complete = true } }

  abbrev setting : System → Outcome System (Unit {0})
  setting v = within System.line (λ c w. record w { line = c }) (usb_set_mode (pos 0)) (completed v)

  module _ (s : System) where
    abbrev Result : ℤ → System → Type 0
    Result = InitResult version s (some desc)

-- After `raspike_prot_shutdown` nothing of the session is left.
pub record Down (ret : ℤ) (s : System) : Type 0 where
  pub succeeds : ret ≡ pos 0
  pub no_receivers : s.link.active_receivers ≡ 0
  pub no_status : s.link.status ≡ none
  pub no_desc : s.link.desc ≡ none
  pub no_session : s.link.session_id ≡ 0
  pub not_complete : s.link.handshake_complete ≡ false
  pub not_waiting : (i : ℕ) → i < port_number → (s.link.ports i).pending ≡ false
  pub no_devices : (i : ℕ) → i < port_number → (s.link.ports i).device ≡ no_device

abbrev Left : Unit {0} → System → Type 0
Left a s = s.link.active_receivers ≡ 0

none_left : (n : ℕ) → ltb 0 n ≡ false → n ≡ 0
none_left n h = ground arith

wait_receivers-Ends : (turns : List Turn) (s : System) → Ends Left (wait_receivers turns s)
unfolding wait_receivers
wait_receivers-Ends [] s = elim (Bool-cases (ltb 0 s.link.active_receivers)) [
  | inl e ↦ rw e tt
  | inr e ↦ rw e (none_left s.link.active_receivers e)
]
wait_receivers-Ends (t ∷ turns) s = elim (Bool-cases (ltb 0 s.link.active_receivers)) [
  | inl e ↦ rw e (
      bind-Ends Any Left (on_link (run_others t.others) (record s { turns = turns })) _
        (Ends-trivial Any _ (λ a u. tt)) (λ a u _. wait_receivers-Ends turns u))
  | inr e ↦ rw e (none_left s.link.active_receivers e)
]

module _ (l : Link) where
  abbrev pub SameLink : Unit {0} → System → Type 0
  SameLink a s = s.link ≡ l

  pub flush_and_close-Ends :
      (desc : Option Descriptor) (s : System) → s.link ≡ l → Ends SameLink (flush_and_close desc s)
  flush_and_close-Ends none s h = h
  flush_and_close-Ends (some d) s h =
      within-Ends SameLink
        ((com_flush (some d) >>= λ _. com_close (some d) >>= λ _. pure tt) s.line)
        (λ c w. record w { line = c }) s (λ a c. h)

cancelled :
    (l : Link) (i : ℕ)
    → i < port_number
    → ((reset_port_state (neg enotconn) true l).ports i).pending ≡ false
unfolding reset_port_state reset_port
cancelled l i h = elim (Bool-cases (l.ports i).pending) [
  | inl e ↦ rw (ltb-true i 7 h, e) refl
  | inr e ↦ rw (ltb-true i 7 h, e) refl
]

-- When `raspike_prot_shutdown` returns, it has succeeded: no receiver is inside, the status is
-- freed, the descriptor and the session are gone, no request waits and no entry has a device.
pub prot_shutdown-Down : (s s' : System) (ret : ℤ) → prot_shutdown s ≡ done ret s' → Down ret s'
unfolding prot_shutdown reset_port_state reset_port
prot_shutdown-Down s s' ret e = Ends-done Down (prot_shutdown s) ends ret s' e
  where
    stopping : System
    stopping = record s { link = record s.link { stop_communication = true } }

    reset : System → Link
    reset u = reset_port_state (neg enotconn) true (record u.link { desc = none })

    ended :
        (u v : System)
        → Left tt u
        → SameLink (reset u) tt v
        → Down (pos 0) (record v { link = end_session v.link })
    ended u v no_receivers same = record {
      succeeds = refl;
      no_receivers = ap (λ l. l.active_receivers) same ∙ no_receivers;
      no_status = refl;
      no_desc = ap (λ l. l.desc) same;
      no_session = refl;
      not_complete = refl;
      not_waiting =
          λ i h. ap (λ l. (l.ports i).pending) same ∙ cancelled (record u.link { desc = none }) i h;
      no_devices = λ i h. ap (λ l. (l.ports i).device) same ∙ rw (ltb-true i 7 h) refl;
    }

    ends : Ends Down (prot_shutdown s)
    ends =
        bind-Ends Left Down (wait_receivers s.turns stopping) _
          (wait_receivers-Ends s.turns stopping)
          (λ a u no_receivers.
            bind-Ends (SameLink (reset u)) Down
              (flush_and_close u.link.desc (record u { link = reset u })) _
              (flush_and_close-Ends (reset u) u.link.desc (record u { link = reset u }) refl)
              (λ a v same. ended u v no_receivers same))
