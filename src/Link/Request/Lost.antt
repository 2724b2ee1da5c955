-- ===== src/Link/Request/Lost.antt =====
-- `reset_port_state` between the acknowledgement and the end of `raspike_request`, in
-- src/raspike_protocol.c.
use libraspike_art.Base.{
  ℕ, ◌<◌, ◌^◌, ◌≡◌, ◌≢◌, refl, sym, ap, ◌∙◌, ◌++◌, true, false, ==-false, ==-refl, ltb-true, ℤ, neg,
  arith,
}
use libraspike_art.Base.Errno.{etimedout}
use libraspike_art.Wire.Word.{put_u32}
use libraspike_art.Link.State.{Link, port_number}
use libraspike_art.Link.Ports.{reset_port, reset_port_state}
use libraspike_art.Link.Process.{process_ack}
use libraspike_art.Link.Request.{begin_request, finish_request}
use libraspike_art.Link.Request.Outcomes.{process_ack-answered}

idle_reset :
    (i cmd sequence : ℕ) (error : ℤ) (l : Link)
    → i < port_number
    → cmd ≢ 0
    → (l.ports i).pending ≡ false
    → (finish_request i cmd sequence (neg etimedout) true (reset_port_state error false l)).1
      ≡ neg etimedout
unfolding finish_request reset_port_state reset_port
idle_reset i cmd sequence error l h some_command idle =
    rw (ltb-true i 7 h, idle, ==-false 0 cmd (λ e. some_command (sym e))) refl

-- An answer that has come is lost if the entries are reset before the request that waits for it goes
-- on: the request then ends as if it had timed out.
pub process_ack-reset_port_state :
    (i cmd sequence value : ℕ) (error : ℤ) (l : Link)
    → i < port_number
    → 0 < cmd
    → cmd < 256
    → value < 2 ^ 32
    → (finish_request i cmd sequence (neg etimedout) true (
        reset_port_state error false
          (process_ack i sequence l.session_id
            (put_u32 cmd ++ put_u32 value)
            (begin_request i sequence l)).0)).1
      ≡ neg etimedout
process_ack-reset_port_state i cmd sequence value error l h some_command cmd_lt value_lt =
    idle_reset i cmd sequence error
      (process_ack i sequence l.session_id (put_u32 cmd ++ put_u32 value)
        (begin_request i sequence l)).0
      h (λ e. absurd (omega arith))
      (ap (λ p. (p.0.ports i).pending) (process_ack-answered cmd value cmd_lt value_lt i sequence l)
        ∙ rw (==-refl i) refl)
