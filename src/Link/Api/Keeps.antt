-- ===== src/Link/Api/Keeps.antt =====
-- What `raspike_port_com_change_if_needed` does to the session, src/raspike_protocol.c, lines 817 to
-- 850, whatever the other threads do meanwhile.
use libraspike_art.Base.{
  ℕ, not, ◌&&◌, ◌||◌, List, [], ◌∷◌, Option, none, some, leb, ◌==◌, ℤ, pos, is_neg, Action, Post,
  bind-Post, either-Post, or-Post,
}
use libraspike_art.Base.Errno.{eintr, etimedout}
use libraspike_art.Com.Fd.{null}
use libraspike_art.Link.State.{Link, device_port_count}
use libraspike_art.Link.System.{is_null, System, Turn, on_link, run_others}
use libraspike_art.Link.System.Keeps.{Stable, Holds, run_others-Post, on_link-Holds}
use libraspike_art.Link.Send.{prot_send_priority}
use libraspike_art.Link.Send.Keeps.{prot_send_priority-Holds}
use libraspike_art.Link.Api.{
  port_cmd, on_status, wait_port_loop, wait_port_cmd_change, port_com_change_if_needed,
}

module _ (P : Link → Type 0) (stable : Stable Unit P) where
  abbrev Held : {A : Type 0} → A → System → Type 0
  Held = Holds Unit P stable

  on_status-Holds :
      (o : Option (List ℕ)) (f : List ℕ → Action System ℤ) (s : System)
      → ((status : List ℕ) → Post Unit Held (f status s))
      → Post Unit Held (on_status o f s)
  on_status-Holds none f s h = tt
  on_status-Holds (some status) f s h = h status

  loop-Holds :
      (turns : List Turn) (port wait_cmd : ℕ) (s : System)
      → P s.link
      → Post Unit Held (wait_port_loop turns port wait_cmd s)
  unfolding wait_port_loop
  loop-Holds [] port wait_cmd s h =
      on_status-Holds s.link.status _ s
        (λ status. or-Post Unit Held (port_cmd status port == wait_cmd) _ _ s h tt)
  loop-Holds (t ∷ turns) port wait_cmd s h = on_status-Holds s.link.status _ s (λ status.
      either-Post Unit Held (port_cmd status port == wait_cmd) _ _ h (
        bind-Post Unit Held Held (on_link (run_others t.others) (record s { turns = turns })) _
          (on_link-Holds Unit P stable (run_others t.others s.link) (record s { turns = turns })
            (run_others-Post Unit P stable t.others s.link h))
          (λ a u k. or-Post Unit Held (t.outcome == etimedout) _ _ u k (
            or-Post Unit Held (not (t.outcome == 0) && not (t.outcome == eintr)) _ _ u k
              (loop-Holds turns port wait_cmd u k)))))

  wait-Holds :
      (port wait_cmd : ℕ) (s : System)
      → P s.link
      → Post Unit Held (wait_port_cmd_change port wait_cmd s)
  unfolding wait_port_cmd_change
  wait-Holds port wait_cmd s h =
      either-Post Unit Held (leb device_port_count port || is_null s.link.status) _ _ h
        (loop-Holds s.turns port wait_cmd s h)

  pub change-Holds :
      (port wait_cmd : ℕ) (s : System)
      → P s.link
      → Post Unit Held (port_com_change_if_needed port wait_cmd s)
  unfolding port_com_change_if_needed
  change-Holds port wait_cmd s h =
      either-Post Unit Held (leb device_port_count port || is_null s.link.status) _ _ h (
        on_status-Holds s.link.status _ s (λ status.
          or-Post Unit Held (port_cmd status port == wait_cmd) _ _ s h (
            bind-Post Unit Held Held (prot_send_priority port wait_cmd (null (pos 0)) s) _
              (prot_send_priority-Holds Unit P stable port wait_cmd (null (pos 0)) s h)
              (λ sent t k.
                or-Post Unit Held (is_neg sent) _ _ t k (wait-Holds port wait_cmd t k)))))
