-- ===== src/Link/Lifecycle/Numbered.antt =====
-- The sequence numbers over the start and the end of a session, src/raspike_protocol.c, lines 342 to
-- 447.
use libraspike_art.Base.{
  ℕ, ◌^◌, ◌<◌, refl, ap, subst, sym, not, List, [], ◌∷◌, Option, none, some, Bool, true, false,
  Bool-cases, inl, inr, ltb, ℤ, neg, is_neg, Outcome, done, blocked, fault, Ends, bind-Ends, Post,
  arith,
}
use libraspike_art.Base.Errno.{enotconn}
use libraspike_art.Com.Usb.{Descriptor, usb_set_mode}
use libraspike_art.Link.State.{Link, Counter, stats_increment}
use libraspike_art.Link.Ports.{reset_port_state, next_sequence, bump_sequence}
use libraspike_art.Link.Ports.Sequence.{next_sequence-InRange}
use libraspike_art.Link.Process.{process_command, zero_status}
use libraspike_art.Link.Process.Kept.{KeptBy, process_command-Kept}
use libraspike_art.Link.System.{System, Turn, run_others, on_link}
use libraspike_art.Link.Receive.Keeps.{Keeps}
use libraspike_art.Link.System.Keeps.{Stable, on_link-Holds, run_others-Post}
use libraspike_art.Link.Handshake.{perform_handshake, receive_legacy_hello}
use libraspike_art.Link.Handshake.Keeps.{or-Still, perform_handshake-Still, hello-Still}
use libraspike_art.Link.Lifecycle.{
  Version, matches, start_session, init_ports, connect, init_with, prot_init, wait_receivers,
  flush_and_close, end_session, prot_shutdown,
}
use libraspike_art.Link.Lifecycle.Safety.{SameLink, flush_and_close-Ends}

-- The next sequence number is a 32-bit number other than 0.
abbrev pub Numbered : Link → Type 0
Numbered l = (0 < l.next_sequence) × (l.next_sequence < 2 ^ 32)

abbrev Still : {A : Type 0} → A → System → Type 0
Still a s = Numbered s.link

command_numbers :
    (l : Link) → Numbered l → (o : Outcome Link ℤ) → Ends (KeptBy l) o → Post Unit (λ _. Numbered) o
command_numbers l h (done ret m) k = subst (λ n. (0 < n) × (n < 2 ^ 32)) (sym k.next_sequence) h
command_numbers l h blocked k = tt
command_numbers l h fault k = tt

counted-Numbered : (k : Counter) (l : Link) → Numbered l → Numbered (stats_increment k l)
unfolding stats_increment
counted-Numbered k l h = h

bumped-Numbered :
    (l : Link) → Numbered l → Numbered (record l { next_sequence = bump_sequence l.next_sequence })
unfolding next_sequence
bumped-Numbered l h =
    let (_, (positive, (small, _))) = next_sequence-InRange l h.0 h.1 in (positive, small)

commands :
    (port cmd flags sequence session : ℕ) (buf : List ℕ) (l : Link)
    → Numbered l
    → Post Unit (λ _. Numbered) (process_command port cmd flags sequence session buf l)
commands port cmd flags sequence session buf l h =
    command_numbers l h (process_command port cmd flags sequence session buf l)
      (process_command-Kept l port cmd flags sequence session buf)

pub Numbered-Keeps : Keeps Unit Numbered
Numbered-Keeps = record { counts = counted-Numbered; handles = commands }

pub Numbered-Stable : Stable Unit Numbered
Numbered-Stable = record {
  counts = counted-Numbered;
  handles = λ port cmd flags sequence session buf l is_open.
      commands port cmd flags sequence session buf l;
  entries = λ ports l h. h;
  sequences = bumped-Numbered;
  receivers = λ n l h. h;
  stopped = λ l h. h;
  cancelled = λ l h. h;
  freed = λ l closed h. h;
  ended = λ l closed h. h;
}

started-Numbered :
    (desc : Descriptor) (l : Link)
    → Numbered (init_ports (record (start_session desc l) { status = some zero_status }))
unfolding init_ports reset_port_state
started-Numbered desc l = elim (Bool-cases l.synchronization_initialized) [
  | inl e ↦ rw e (omega arith, omega arith)
  | inr e ↦ rw e (omega arith, omega arith)
]

connect-Numbered :
    (version : Version) (s : System) → Numbered s.link → Ends Still (connect version s)
unfolding connect usb_set_mode
connect-Numbered version s h =
    bind-Ends Still Still (perform_handshake s) _
      (perform_handshake-Still Numbered (λ v l k. k) s h)
      (λ ret t k. or-Still Numbered (is_neg ret) _ _ t k (
        or-Still Numbered (not (matches version t.link)) _ _ t k (
          bind-Ends Still Still (receive_legacy_hello t) _
            (hello-Still Numbered (λ capabilities session l k. k, λ l k. k) t k)
            (λ hello u m. or-Still Numbered (is_neg hello) _ _ u m m))))

init_with-Numbered :
    (version : Version) (allocated : Bool) (desc : Descriptor) (busy : Option Descriptor)
    (s : System)
    → Numbered s.link
    → Ends Still (init_with version allocated desc busy s)
unfolding init_with
init_with-Numbered version allocated desc (some busy) s h = h
init_with-Numbered version false desc none s h = (omega arith, omega arith)
init_with-Numbered version true desc none s h =
    connect-Numbered version
      (record s {
        link = init_ports (record (start_session desc s.link) { status = some zero_status });
      })
      (started-Numbered desc s.link)

pub prot_init-Numbered :
    (version : Version) (allocated : Bool) (desc : Option Descriptor) (s : System)
    → Numbered s.link
    → Ends (λ ret (t : System). Numbered t.link) (prot_init version allocated desc s)
unfolding prot_init
prot_init-Numbered version allocated none s h = h
prot_init-Numbered version allocated (some desc) s h =
    init_with-Numbered version allocated desc s.link.desc s h

without_faults : {A : Type 0} (o : Outcome System A) → Post Unit Still o → Ends Still o
without_faults (done a s) h = h
without_faults blocked h = tt
without_faults fault h = tt

wait-Numbered :
    (turns : List Turn) (s : System) → Numbered s.link → Ends Still (wait_receivers turns s)
unfolding wait_receivers
wait-Numbered [] s h = elim (Bool-cases (ltb 0 s.link.active_receivers)) [
  | inl e ↦ rw e tt
  | inr e ↦ rw e h
]
wait-Numbered (t ∷ turns) s h = elim (Bool-cases (ltb 0 s.link.active_receivers)) [
  | inl e ↦ rw e (
      bind-Ends Still Still (on_link (run_others t.others) (record s { turns = turns })) _
        (without_faults (on_link (run_others t.others) (record s { turns = turns })) (
          on_link-Holds Unit Numbered Numbered-Stable (run_others t.others s.link)
            (record s { turns = turns })
            (run_others-Post Unit Numbered Numbered-Stable t.others s.link h)))
        (λ a u k. wait-Numbered turns u k))
  | inr e ↦ rw e h
]

pub prot_shutdown-Numbered :
    (s : System) → Numbered s.link → Ends (λ ret (t : System). Numbered t.link) (prot_shutdown s)
unfolding prot_shutdown reset_port_state
prot_shutdown-Numbered s h =
    bind-Ends Still Still (wait_receivers s.turns stopping) _ (wait-Numbered s.turns stopping h)
      (λ a u k.
        bind-Ends (SameLink (reset u)) Still
          (flush_and_close u.link.desc (record u { link = reset u })) _
          (flush_and_close-Ends (reset u) u.link.desc (record u { link = reset u }) refl)
          (λ b v same. subst Numbered (ap (λ l. end_session l) (sym same)) k))
  where
    stopping : System
    stopping = record s { link = record s.link { stop_communication = true } }

    reset : System → Link
    reset u = reset_port_state (neg enotconn) true (record u.link { desc = none })
