-- ===== src/Com/Clock.antt =====
-- The clock: `monotonic_ms` of src/raspike_com.c, lines 41 to 46, and `deadline_after_ms` of
-- src/raspike_protocol.c, lines 87 to 98.
use libraspike_art.Base.{
  ℕ, ◌+◌, ◌*◌, ◌-◌, ◌/◌, ◌%◌, ◌<◌, ◌≡◌, Bool-cases, inl, inr, leb, if◌then◌else◌, arith,
}

-- `struct timespec`
pub record Timespec : Type 0 where
  pub tv_sec : ℕ
  pub tv_nsec : ℕ

unfoldable pub monotonic_ms : Timespec → ℕ
monotonic_ms t = t.tv_sec * 1000 + t.tv_nsec / 1000000

-- `if (deadline.tv_nsec >= 1000000000L)`
abbrev carried : Timespec → Timespec
carried t =
    if leb 1000000000 t.tv_nsec
    then record { tv_sec = t.tv_sec + 1; tv_nsec = t.tv_nsec - 1000000000 }
    else t

-- The deadline for the time that the clock tells, and a timeout that is not negative.
unfoldable pub deadline_after_ms : ℕ → Timespec → Timespec
deadline_after_ms timeout_ms now = carried (record {
  tv_sec = now.tv_sec + timeout_ms / 1000;
  tv_nsec = now.tv_nsec + timeout_ms % 1000 * 1000000;
})

-- For a time with less than a second of nanoseconds, the deadline has less than a second of
-- nanoseconds, too, which `pthread_cond_timedwait` asks for, and by the clock in milliseconds it is
-- later by exactly the timeout.
pub monotonic_ms-deadline_after_ms :
    (timeout_ms : ℕ) (now : Timespec)
    → now.tv_nsec < 1000000000
    → ((deadline_after_ms timeout_ms now).tv_nsec < 1000000000)
      × (monotonic_ms (deadline_after_ms timeout_ms now) ≡ monotonic_ms now + timeout_ms)
unfolding monotonic_ms deadline_after_ms
monotonic_ms-deadline_after_ms timeout_ms now h =
    elim (Bool-cases (leb 1000000000 (now.tv_nsec + timeout_ms % 1000 * 1000000))) [
      | inl e ↦ rw e (ground arith, ground arith)
      | inr e ↦ rw e (ground arith, ground arith)
    ]
