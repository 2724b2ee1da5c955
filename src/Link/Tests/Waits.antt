-- ===== src/Link/Tests/Waits.antt =====
-- Sequence numbers, a lost answer, a wait for a port's command, and a telemetry frame.
use libraspike_art.Base.{
  ℕ, zero, suc, ◌-◌, ◌<◌, ◌^◌, ◌≡◌, ◌≢◌, refl, List, [], ◌∷◌, ◌++◌, true, false, replicate, neg,
  arith,
}
use libraspike_art.Base.Errno.{estale, etimedout}
use libraspike_art.Wire.Word.{put_u32, byte}
use libraspike_art.Wire.Layout.Drive
use libraspike_art.Link.State.{Link}
use libraspike_art.Link.Ports.{reset_port_state}
use libraspike_art.Link.Process.{zero_status, process_ack, store_drive_telemetry}
use libraspike_art.Link.Process.Telemetry.{Stored}
use libraspike_art.Link.Process.Telemetry.Whole.{Reports, store_drive_telemetry-Stored}
use libraspike_art.Link.Request.{begin_request, finish_request}
use libraspike_art.Link.Request.Lost.{process_ack-reset_port_state}
use libraspike_art.Link.Tests.{session}

-- The counter wraps.
abbrev last_number : Link
last_number = record session { next_sequence = 2 ^ 32 - 1 }

process_ack-reset_port_state_example :
    (finish_request 2 44 7 (neg etimedout) true (
      reset_port_state
        (neg estale)
        false
        (process_ack 2 7 9 (put_u32 44 ++ put_u32 1) (begin_request 2 7 session)).0)).1
    ≡ neg etimedout
process_ack-reset_port_state_example =
    process_ack-reset_port_state 2 44 7 1 (neg estale) session (omega arith) (omega arith)
      (omega arith) (omega arith)

-- A motor on port 2 with the count 5, the speed 7 and the power 1.
abbrev pub telemetry : List ℕ
telemetry =
    replicate 8 0
    ++ (5 ∷ 0 ∷ 0 ∷ 0 ∷ 0 ∷ 0 ∷ 0 ∷ 0 ∷ 7 ∷ 0 ∷ 0 ∷ 0 ∷ 0 ∷ 0 ∷ 0 ∷ 0 ∷ 1 ∷ 0 ∷ 0 ∷ 0 ∷ 0 ∷ 0 ∷ 2
        ∷ 3 ∷ 4 ∷ 1 ∷ [])

pub telemetry-Reports : Reports telemetry 0
telemetry-Reports = record {
  whole = refl;
  valid = refl;
  on_port = omega arith;
  alone = λ other h ne. port_of_one other h ne;
  no_color = λ e. absurd (omega arith);
}
  where
    port_of_one : (other : ℕ) → other < 2 → other ≢ 0 → 2 ≢ byte telemetry (Drive.motor_port other)
    port_of_one zero h ne = absurd (ne refl)
    port_of_one (suc zero) h ne = λ e. absurd (omega arith)
    port_of_one (suc (suc n)) h ne = absurd (omega arith)

store_drive_telemetry-Stored_example :
    Stored telemetry (store_drive_telemetry telemetry zero_status) 0
store_drive_telemetry-Stored_example =
    store_drive_telemetry-Stored telemetry zero_status refl 0 (omega arith) telemetry-Reports
