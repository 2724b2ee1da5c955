-- ===== src/Session/Invariant.antt =====
-- What every call keeps holds in every state that the calls of src/raspike_protocol.c reach.
use libraspike_art.Base.{
  ℕ, ℤ, Bool, Option, ◌≡◌, ◌⊎◌, inl, inr, sym, subst, Post, Post-done, Outcome, done,
}
use libraspike_art.Link.System.{System}
use libraspike_art.Link.Send.Keeps.{prot_send-Holds, prot_send_priority-Holds}
use libraspike_art.Link.Receive.{prot_receive}
use libraspike_art.Link.Receive.Calm.{prot_receive-Post}
use libraspike_art.Link.Request.Keeps.{request-Holds}
use libraspike_art.Link.Api.Keeps.{change-Holds}
use libraspike_art.Device.Common.Keeps.{get_device_common-Holds}
use libraspike_art.Device.Motor.{clear_count}
use libraspike_art.Device.Motor.Reset.{motor_reset_count-Holds}
use libraspike_art.Com.Usb.{Descriptor}
use libraspike_art.Link.State.{Link}
use libraspike_art.Link.System.Keeps.{Stable}
use libraspike_art.Link.Receive.Keeps.{Keeps}
use libraspike_art.Link.Lifecycle.{Version, prot_init, prot_shutdown}
use libraspike_art.Session.{
  initial, Step, world, inits, shuts_down, receives, sends, sends_priority, requests, changes_port,
  claims, resets_count, stores, Reach, starts, next,
}

pub record Invariant (P : Link → Type 0) : Type 0 where
  pub stable : Stable Unit P
  pub frames : Keeps Unit P
  pub at_start : P initial
  pub inits :
      (version : Version) (allocated : Bool) (desc : Option Descriptor) (s s' : System) (ret : ℤ)
      → prot_init version allocated desc s ≡ done ret s'
      → P s.link
      → P s'.link
  pub shuts_down : (s s' : System) (ret : ℤ) → prot_shutdown s ≡ done ret s' → P s.link → P s'.link
  pub clears : (port : ℕ) (l : Link) → P l → P (clear_count port l)

module _ (P : Link → Type 0) (invariant : Invariant P) where
  abbrev After : {A : Type 0} → A → System → Type 0
  After a s = P s.link

  module _ {A : Type 0} (o : Outcome System A) (a : A) (s' : System) (e : o ≡ done a s') where
    after : Post Unit After o → P s'.link
    after h = Post-done After Unit o h a s' e

  received-Holds : (s s' : System) → P s.link → (s' ≡ s) ⊎ P s'.link → P s'.link
  received-Holds s s' h (inl same) = subst (λ s. P s.link) (sym same) h
  received-Holds s s' h (inr ready) = ready

  Step-Holds : {s s' : System} → Step s s' → P s.link → P s'.link
  Step-Holds (world line turns e) h = subst (λ s. P s.link) (sym e) h
  Step-Holds {s} {s'} (inits version allocated desc ret e) h =
      invariant.inits version allocated desc s s' ret e h
  Step-Holds {s} {s'} (shuts_down ret e) h = invariant.shuts_down s s' ret e h
  Step-Holds {s} {s'} (receives ret e) h = received-Holds s s' h (
      Post-done _ Unit (prot_receive s)
        (prot_receive-Post Unit P invariant.frames invariant.stable.receivers s (λ d c. h)) ret s'
        e)
  Step-Holds {s} {s'} (sends port cmd payload ret e) h =
      after _ ret s' e (prot_send-Holds Unit P invariant.stable port cmd payload s h)
  Step-Holds {s} {s'} (sends_priority port cmd payload ret e) h =
      after _ ret s' e (prot_send_priority-Holds Unit P invariant.stable port cmd payload s h)
  Step-Holds {s} {s'} (requests port cmd payload ret e) h =
      after _ ret s' e (request-Holds Unit P invariant.stable port cmd payload s h)
  Step-Holds {s} {s'} (changes_port port wait_cmd ret e) h =
      after _ ret s' e (change-Holds P invariant.stable port wait_cmd s h)
  Step-Holds {s} {s'} (claims kind port device e) h =
      after _ device s' e (get_device_common-Holds Unit P invariant.stable kind port s h)
  Step-Holds {s} {s'} (resets_count motor ret e) h =
      after _ ret s' e (motor_reset_count-Holds P invariant.stable invariant.clears motor s h)
  Step-Holds {s} (stores ports e) h =
      subst (λ s. P s.link) (sym e) (invariant.stable.entries ports s.link h)

  pub Reach-Holds : (s : System) → Reach s → P s.link
  Reach-Holds s (starts line turns _ e) = subst (λ s. P s.link) (sym e) invariant.at_start
  Reach-Holds s (next {s = before} reached step) = Step-Holds step (Reach-Holds before reached)
