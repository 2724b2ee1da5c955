-- ===== src/Link/Lifecycle/Fresh.antt =====
-- The session between the `calloc` of `raspike_prot_init` and its end, src/raspike_protocol.c, lines
-- 235 to 424: it is not complete, and its status and telemetry are the zeros that it started with.
use libraspike_art.Base.{
  ℕ, ◌≢◌, Ends-intro, Ends-done, ◌≡◌, refl, ap, not, List, Option, none, some, Bool, true, false,
  Bool-cases, inl, inr, ℤ, is_neg, length, Ends, bind-Ends,
}
use libraspike_art.Com.Usb.{Descriptor, usb_set_mode}
use libraspike_art.Link.State.{Link}
use libraspike_art.Link.Process.{zero_status, zero_telemetry}
use libraspike_art.Link.Process.Sessions.{HasStatus}
use libraspike_art.Link.System.{is_null, System}
use libraspike_art.Link.Handshake.{set_version, perform_handshake, receive_legacy_hello}
use libraspike_art.Link.Lifecycle.Negotiated.{Succeeds, receive_legacy_hello-Succeeds}
use libraspike_art.Link.Handshake.Keeps.{perform_handshake-Still, hello-Still}
use libraspike_art.Link.Ports.{reset_port_state}
use libraspike_art.Link.Lifecycle.{
  Version, connect, init_with, init_ports, prot_init, matches, start_session, give_up,
}

pub record Fresh (l : Link) : Type 0 where
  pub not_complete : l.handshake_complete ≡ false
  pub status : l.status ≡ some zero_status
  pub telemetry : l.telemetry ≡ zero_telemetry

abbrev Still : {A : Type 0} → A → System → Type 0
Still a s = Fresh s.link

sets-Fresh : (version : List ℕ) (l : Link) → Fresh l → Fresh (set_version version l)
sets-Fresh version l h = record {
  not_complete = h.not_complete;
  status = h.status;
  telemetry = h.telemetry;
}

greets-Fresh :
    ((capabilities session : ℕ) (l : Link)
      → Fresh l
      → Fresh (record l { capabilities = capabilities; session_id = session }))
    × ((l : Link) → Fresh l → Fresh (record l { use_protocol_v2 = true }))
greets-Fresh = (
  λ capabilities session l h. record {
    not_complete = h.not_complete;
    status = h.status;
    telemetry = h.telemetry;
  },
  λ l h. record { not_complete = h.not_complete; status = h.status; telemetry = h.telemetry },
)

-- A session that may be used: its status is allocated and of its size, it runs version 2, and it has a
-- number.
pub record Live (l : Link) : Type 0 where
  pub has_status : HasStatus l
  pub version_2 : l.use_protocol_v2 ≡ true
  pub has_session : l.session_id ≢ 0

-- A session that is complete and has its descriptor may be used.
abbrev pub Ready : Link → Type 0
Ready l = l.handshake_complete ≡ true → is_null l.desc ≡ false → Live l

-- A hello that was received in a fresh session.
abbrev Greeted : ℤ → System → Type 0
Greeted ret s = Succeeds ret s × Fresh s.link

hello-Greeted : (s : System) → Fresh s.link → Ends Greeted (receive_legacy_hello s)
hello-Greeted s h = Ends-intro Greeted (receive_legacy_hello s) (λ ret t e. (
  Ends-done Succeeds _ (receive_legacy_hello-Succeeds s) ret t e,
  Ends-done Still _ (hello-Still Fresh greets-Fresh s h) ret t e,
))

abbrev ReadyAfter : {A : Type 0} → A → System → Type 0
ReadyAfter a s = Ready s.link

gives_up : (l : Link) → Fresh l → Ready (give_up l)
gives_up l h complete is_open = absurd cc

connect-Ready :
    (version : Version) (s : System) → Fresh s.link → Ends ReadyAfter (connect version s)
unfolding connect usb_set_mode
connect-Ready version s h =
    bind-Ends Still ReadyAfter (perform_handshake s) _
      (perform_handshake-Still Fresh sets-Fresh s h)
      (λ ret t k. elim (Bool-cases (is_neg ret)) [
        | inl e ↦ rw e (gives_up t.link k)
        | inr e ↦ elim (Bool-cases (not (matches version t.link))) [
          | inl e' ↦ rw (e, e') (gives_up t.link k)
          | inr e' ↦
              rw (e, e')
                (bind-Ends Greeted ReadyAfter (receive_legacy_hello t) _ (hello-Greeted t k)
                  (λ hello u m. elim (Bool-cases (is_neg hello)) [
                    | inl f ↦ rw f (gives_up u.link m.1)
                    | inr f ↦ rw f (λ complete is_open. record {
                      has_status = record {
                        status_bytes = zero_status;
                        allocated = m.1.status;
                        status_size = refl;
                        telemetry_size = ap length m.1.telemetry;
                      };
                      version_2 = (m.0 f).version_2;
                      has_session = (m.0 f).has_session;
                    })
                  ]))
        ]
      ])

started-Fresh :
    (desc : Descriptor) (l : Link)
    → Fresh (init_ports (record (start_session desc l) { status = some zero_status }))
unfolding init_ports reset_port_state
started-Fresh desc l = elim (Bool-cases l.synchronization_initialized) [
  | inl e ↦ rw e (record { not_complete = refl; status = refl; telemetry = refl })
  | inr e ↦ rw e (record { not_complete = refl; status = refl; telemetry = refl })
]

init_with-Ready :
    (version : Version) (allocated : Bool) (desc : Descriptor) (busy : Option Descriptor)
    (s : System)
    → Ready s.link
    → Ends ReadyAfter (init_with version allocated desc busy s)
unfolding init_with
init_with-Ready version allocated desc (some busy) s h = h
init_with-Ready version false desc none s h = λ complete is_open. absurd cc
init_with-Ready version true desc none s h = connect-Ready version _ (started-Fresh desc s.link)

pub prot_init-Ready :
    (version : Version) (allocated : Bool) (desc : Option Descriptor) (s : System)
    → Ready s.link
    → Ends (λ ret t. Ready t.link) (prot_init version allocated desc s)
unfolding prot_init
prot_init-Ready version allocated none s h = h
prot_init-Ready version allocated (some desc) s h =
    init_with-Ready version allocated desc s.link.desc s h
