-- ===== src/Session/Safety.antt =====
-- What holds in every state that the calls of the library reach, src/raspike_protocol.c.
use libraspike_art.Base.{ℕ, ◌≡◌, ◌≢◌, true, false, Ends-done, Post-fault, fault}
use libraspike_art.Com.Fd.{Buf}
use libraspike_art.Link.System.{is_null, System}
use libraspike_art.Link.Receive.{prot_receive}
use libraspike_art.Link.Receive.Calm.{prot_receive-Post}
use libraspike_art.Link.Request.{request}
use libraspike_art.Link.Request.Keeps.{request-Holds}
use libraspike_art.Link.Lifecycle.Safety.{prot_shutdown-Down}
use libraspike_art.Link.Lifecycle.Fresh.{Live, Ready, prot_init-Ready}
use libraspike_art.Device.Motor.Reset.{clear_count-Ready}
use libraspike_art.Session.Invariant.{Invariant, Reach-Holds}
use libraspike_art.Session.{initial, Reach}
use libraspike_art.Session.Ready.{
  IsLive, IsLive-Keeps, receivers-IsLive, IsUsable, IsUsable-Stable, Ready-Stable, Ready-Keeps,
}

initial-Ready : Ready initial
unfolding initial
initial-Ready complete is_open = absurd cc

Ready-Invariant : Invariant Ready
Ready-Invariant = record {
  stable = Ready-Stable;
  frames = Ready-Keeps;
  at_start = initial-Ready;
  inits = λ version allocated desc s s' ret e h.
      Ends-done (λ _ (t : System). Ready t.link) _ (prot_init-Ready version allocated desc s h) ret
        s' e;
  shuts_down = λ s s' ret e h complete is_open.
      let down = (prot_shutdown-Down s s' ret e).not_complete in absurd cc;
  clears = clear_count-Ready;
}

-- Whatever calls are made one after the other, in whatever order and on any line, while in the turns
-- that a call gives other threads these handle commands, leave, or go through a shutdown up to its
-- end: in every state that is reached, a session that is complete and still has its descriptor has its
-- status allocated, the status and the telemetry have the sizes of their structs, and it runs version 2
-- with a number that is not 0. (That another thread starts a session during a call is not covered.)
pub Reach-Live :
    (s : System)
    → Reach s
    → s.link.handshake_complete ≡ true
    → is_null s.link.desc ≡ false
    → Live s.link
Reach-Live = Reach-Holds Ready Ready-Invariant

-- In every state that is reached, `raspike_prot_receive` accesses no memory through NULL, whatever
-- bytes come.
pub prot_receive-ne-fault : (s : System) → Reach s → prot_receive s ≢ fault
prot_receive-ne-fault s reached e =
    Post-fault _ (prot_receive s)
      (prot_receive-Post ⊥ IsLive IsLive-Keeps receivers-IsLive s (λ is_open complete. record {
        complete = complete;
        live = Reach-Live s reached complete is_open;
      }))
      e

-- In every state that is reached in which the session is complete, `raspike_request` accesses no memory
-- through NULL, whatever commands the receiver handles and however far a shutdown in another thread
-- goes meanwhile, the freeing of the status included.
pub request-ne-fault :
    (s : System)
    → Reach s
    → s.link.handshake_complete ≡ true
    → (port cmd : ℕ) (payload : Buf) → request port cmd payload s ≢ fault
request-ne-fault s reached complete port cmd payload e =
    Post-fault _ (request port cmd payload s)
      (request-Holds ⊥ IsUsable IsUsable-Stable port cmd payload s
        (λ is_open. record { complete = complete; live = Reach-Live s reached complete is_open }))
      e
