-- ===== src/Session/Ready.antt =====
-- A complete session has its status: what keeps that, and what it is good for.
use libraspike_art.Base.{
  ℕ, ◌≢◌, ◌⊎◌, ◌≡◌, refl, ◌∙◌, ap, List, true, false, Bool-cases, inl, inr, ℤ, Outcome, done,
  blocked, fault, Ends, Post, subst, sym,
}
use libraspike_art.Link.State.{Link, Counter, stats_increment}
use libraspike_art.Link.Process.{process_command}
use libraspike_art.Link.Process.Kept.{KeptBy, process_command-Kept}
use libraspike_art.Link.Process.Sessions.{HasStatus, process_command-Returns}
use libraspike_art.Link.System.{is_null}
use libraspike_art.Link.System.Keeps.{Stable}
use libraspike_art.Link.Receive.Keeps.{Keeps}
use libraspike_art.Link.Lifecycle.Fresh.{Live, Ready}

-- The session is complete and all that is used of it is there.
pub record IsLive (l : Link) : Type 0 where
  pub complete : l.handshake_complete ≡ true
  pub live : Live l

-- What leaves the flag, the status and the telemetry alone.
same-HasStatus :
    (l l' : Link) → l'.status ≡ l.status → l'.telemetry ≡ l.telemetry → HasStatus l → HasStatus l'
same-HasStatus l l' status telemetry h = record {
  status_bytes = h.status_bytes;
  allocated = status ∙ h.allocated;
  status_size = h.status_size;
  telemetry_size = rw telemetry h.telemetry_size;
}

same-Live :
    (l l' : Link)
    → l'.status ≡ l.status
    → l'.telemetry ≡ l.telemetry
    → l'.use_protocol_v2 ≡ l.use_protocol_v2
    → l'.session_id ≡ l.session_id
    → Live l
    → Live l'
same-Live l l' status telemetry version session h = record {
  has_status = same-HasStatus l l' status telemetry h.has_status;
  version_2 = version ∙ h.version_2;
  has_session = λ z. h.has_session (sym session ∙ z);
}

still_numbered :
    (l l' : Link)
    → (l'.session_id ≡ l.session_id) ⊎ (l'.session_id ≢ 0)
    → l.session_id ≢ 0
    → l'.session_id ≢ 0
still_numbered l l' (inl e) h = λ z. h (sym e ∙ z)
still_numbered l l' (inr n) h = n

command-IsLive :
    (port cmd flags sequence session : ℕ) (buf : List ℕ) (l : Link)
    → IsLive l
    → Post ⊥ (λ _. IsLive) (process_command port cmd flags sequence session buf l)
command-IsLive port cmd flags sequence session buf l h =
    let (ret, (m, (e, has_status))) =
      process_command-Returns l h.live.has_status port cmd flags sequence session buf in
    let kept =
      subst (Ends (KeptBy l)) e (process_command-Kept l port cmd flags sequence session buf) in
    subst (Post ⊥ (λ _. IsLive)) (sym e) (record {
      complete = kept.handshake_complete ∙ h.complete;
      live = record {
        has_status = has_status;
        version_2 = kept.use_protocol_v2 ∙ h.live.version_2;
        has_session = still_numbered l m kept.session h.live.has_session;
      };
    })

counted-IsLive : (k : Counter) (l : Link) → IsLive l → IsLive (stats_increment k l)
unfolding stats_increment
counted-IsLive k l h = record {
  complete = h.complete;
  live = same-Live l (stats_increment k l) refl refl refl refl h.live;
}

pub IsLive-Keeps : Keeps ⊥ IsLive
IsLive-Keeps = record { counts = counted-IsLive; handles = command-IsLive }

pub receivers-IsLive : (n : ℕ) (l : Link) → IsLive l → IsLive (record l { active_receivers = n })
receivers-IsLive n l h = record {
  complete = h.complete;
  live = same-Live l _ refl refl refl refl h.live;
}

-- As long as the session has its descriptor, it is complete and live: what a request relies on while a
-- shutdown may go on.
abbrev pub IsUsable : Link → Type 0
IsUsable l = is_null l.desc ≡ false → IsLive l

usable :
    (l m : Link)
    → m.desc ≡ l.desc
    → m.handshake_complete ≡ l.handshake_complete
    → (Live l → Live m)
    → IsUsable l
    → IsUsable m
usable l m desc complete live h is_open =
    let k = h (ap is_null (sym desc) ∙ is_open) in
    record { complete = complete ∙ k.complete; live = live k.live }

command-IsUsable :
    (port cmd flags sequence session : ℕ) (buf : List ℕ) (l : Link)
    → is_null l.desc ≡ false
    → IsUsable l
    → Post ⊥ (λ _. IsUsable) (process_command port cmd flags sequence session buf l)
command-IsUsable port cmd flags sequence session buf l is_open h =
    weaken _ (command-IsLive port cmd flags sequence session buf l (h is_open))
  where
    weaken : (o : Outcome Link ℤ) → Post ⊥ (λ _. IsLive) o → Post ⊥ (λ _. IsUsable) o
    weaken (done ret m) k = λ still_open. k
    weaken blocked k = tt
    weaken fault k = k

counted-IsUsable : (k : Counter) (l : Link) → IsUsable l → IsUsable (stats_increment k l)
unfolding stats_increment
counted-IsUsable k l h is_open = counted-IsLive k l (h is_open)

pub IsUsable-Stable : Stable ⊥ IsUsable
IsUsable-Stable = record {
  counts = counted-IsUsable;
  handles = command-IsUsable;
  entries = λ ports l. usable l _ refl refl (same-Live l _ refl refl refl refl);
  sequences = λ l. usable l _ refl refl (same-Live l _ refl refl refl refl);
  receivers = λ n l. usable l _ refl refl (same-Live l _ refl refl refl refl);
  stopped = λ l. usable l _ refl refl (same-Live l _ refl refl refl refl);
  cancelled = λ l h is_open. absurd cc;
  freed = λ l closed h is_open. absurd cc;
  ended = λ l closed h is_open. absurd cc;
}

-- The state of a call that ends, if it is known to be in a session that is complete or not.
command-Ready :
    (port cmd flags sequence session : ℕ) (buf : List ℕ) (l : Link)
    → Ready l
    → Post Unit (λ _. Ready) (process_command port cmd flags sequence session buf l)
command-Ready port cmd flags sequence session buf l h = elim (Bool-cases (is_null l.desc)) [
  | inl closed ↦ gone closed _ (process_command-Kept l port cmd flags sequence session buf)
  | inr is_open ↦ elim (Bool-cases l.handshake_complete) [
    | inl complete ↦ live _ (
        command-IsLive port cmd flags sequence session buf l
          (record { complete = complete; live = h complete is_open }))
    | inr incomplete ↦
        idle incomplete _ (process_command-Kept l port cmd flags sequence session buf)
  ]
]
  where
    live : (o : Outcome Link ℤ) → Post ⊥ (λ _. IsLive) o → Post Unit (λ _. Ready) o
    live (done ret m) k = λ complete is_open. k.live
    live blocked k = tt
    live fault k = tt

    gone :
        is_null l.desc ≡ true → (o : Outcome Link ℤ) → Ends (KeptBy l) o → Post Unit (λ _. Ready) o
    gone closed (done ret m) k = λ complete is_open. let e = ap is_null k.desc ∙ closed in absurd cc
    gone closed blocked k = tt
    gone closed fault k = tt

    idle :
        l.handshake_complete ≡ false
        → (o : Outcome Link ℤ) → Ends (KeptBy l) o
        → Post Unit (λ _. Ready) o
    idle incomplete (done ret m) k = λ complete is_open. let e = k.handshake_complete in absurd cc
    idle incomplete blocked k = tt
    idle incomplete fault k = tt

counted-Ready : (k : Counter) (l : Link) → Ready l → Ready (stats_increment k l)
unfolding stats_increment
counted-Ready k l h complete is_open =
    same-Live l (stats_increment k l) refl refl refl refl (h complete is_open)

pub Ready-Keeps : Keeps Unit Ready
Ready-Keeps = record { counts = counted-Ready; handles = command-Ready }

pub Ready-Stable : Stable Unit Ready
Ready-Stable = record {
  counts = counted-Ready;
  handles = λ port cmd flags sequence session buf l is_open.
      command-Ready port cmd flags sequence session buf l;
  entries = λ ports l h complete is_open. same-Live l _ refl refl refl refl (h complete is_open);
  sequences = λ l h complete is_open. same-Live l _ refl refl refl refl (h complete is_open);
  receivers = λ n l h complete is_open. same-Live l _ refl refl refl refl (h complete is_open);
  stopped = λ l h complete is_open. same-Live l _ refl refl refl refl (h complete is_open);
  cancelled = λ l h complete is_open. absurd cc;
  freed = λ l closed h complete is_open. absurd cc;
  ended = λ l closed h complete is_open. absurd cc;
}
