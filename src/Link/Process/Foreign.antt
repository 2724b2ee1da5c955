-- ===== src/Link/Process/Foreign.antt =====
-- Frames of another session: the guards at the head of `process_command` in src/raspike_protocol.c.
use libraspike_art.Base.{
  ℕ, ◌≡◌, ◌≢◌, refl, List, true, not, ==-false, Bool-cases, inl, inr, ℤ, neg, is_neg, done,
}
use libraspike_art.Base.Errno.{einval, estale}
use libraspike_art.Wire.Command.{cmd_link_hello}
use libraspike_art.Link.State.{Link, LinkStats, Counter, stats_increment, bump}
use libraspike_art.Link.Ports.{is_valid_port}
use libraspike_art.Link.Process.{process_command}

-- A command of version 2 that is not a hello and carries another session's number is refused with
-- an error. Except for the counters it changes nothing: not the status, not the telemetry and not
-- the requests that wait.
pub process_command-foreign :
    (port cmd flags sequence session : ℕ) (buf : List ℕ) (l : Link)
    → l.use_protocol_v2 ≡ true
    → cmd ≢ cmd_link_hello
    → session ≢ l.session_id
    → (ret : ℤ) × ((stats : LinkStats) × ((is_neg ret ≡ true)
          × (process_command port cmd flags sequence session buf l
              ≡ done ret (record l { stats = stats }))))
unfolding process_command stats_increment
process_command-foreign port cmd flags sequence session buf l v2 no_hello foreign =
    elim (Bool-cases (not (is_valid_port port))) [
      | inl e ↦ (
        neg einval,
        (
          bump Counter.framing_errors l.stats,
          (refl, rw (==-false cmd cmd_link_hello no_hello, e) refl),
        ),
      )
      | inr e ↦ (
        neg estale,
        (
          bump Counter.session_errors l.stats,
          (
            refl,
            rw (==-false cmd cmd_link_hello no_hello, e, v2, ==-false session l.session_id foreign)
                refl,
          ),
        ),
      )
    ]
