-- ===== src/Com/Fd/Deadline.antt =====
-- The clock and the deadline in `write_all_fd` of src/raspike_com.c.
use libraspike_art.Base.{
  ℕ, ◌+◌, ◌^◌, ◌≤◌, ◌<◌, ◌≡◌, ◌≢◌, refl, ◌⊎◌, inl, inr, some, List, [], ◌∷◌, leb, ◌==◌, Bool-cases,
  drop, ℤ, pos, negsuc, neg, ==-false, done, blocked, arith,
}
use libraspike_art.Base.Errno.{eintr}
use libraspike_art.Com.Os.{Os, Round, Poll, ready, hangup, expired, poll_failed, Io, count, failed}
use libraspike_art.Com.Fd.{
  bytes, Progress, returns, goes_on, waits, tick, remaining_ms, not_positive, wait_fd, after_wait,
  write_fd, write_round, write_loop, write_all_fd, deadline_for,
}

-- The repeated calls of `poll` in a round end.
abbrev pub PollEnds : List Poll → Type 0
PollEnds [] = ⊥
PollEnds (poll_failed e ∷ polls) = (e ≢ eintr) ⊎ PollEnds polls
PollEnds (_ ∷ polls) = Unit

-- So do the repeated calls of `read` or `write`.
abbrev pub IoEnds : List Io → Type 0
IoEnds [] = ⊥
IoEnds (failed e ∷ ios) = (e ≢ eintr) ⊎ IoEnds ios
IoEnds (_ ∷ ios) = Unit

-- A round whose calls return, less than 2^31 ms after the one before (the code keeps the time left in
-- an `int`).
pub record Answers (r : Round) : Type 0 where
  pub polls : PollEnds r.polls
  pub ios : IoEnds r.ios
  pub soon : r.elapsed < 2 ^ 31

-- All rounds are such, and they last at least until `deadline`.
abbrev pub LastsUntil : ℕ → ℕ → List Round → Type 0
LastsUntil deadline now [] = deadline ≤ now
LastsUntil deadline now (r ∷ script) = Answers r × LastsUntil deadline (now + r.elapsed) script

-- A round does not wait, and if the loop goes on, then the deadline is still ahead.
abbrev pub Advances : {A : Type 0} → ℕ → Os → Progress A → Type 0
Advances deadline os (returns z os') = Unit
Advances deadline os (goes_on a os') = (os'.now ≡ os.now) × (os.now < deadline)
Advances deadline os waits = ⊥

pub wait_fd-some : (polls : List Poll) → PollEnds polls → (z : ℤ) × (wait_fd polls ≡ some z)
unfolding wait_fd
wait_fd-some [] h = absurd h
wait_fd-some (poll_failed e ∷ polls) (inl other) = (neg e, rw (==-false e eintr other))
wait_fd-some (poll_failed e ∷ polls) (inr more) = elim (Bool-cases (e == eintr)) [
  | inl again ↦ rw again (wait_fd-some polls more)
  | inr other ↦ (neg e, rw other)
]
wait_fd-some (ready ∷ polls) h = (_, refl)
wait_fd-some (hangup ∷ polls) h = (_, refl)
wait_fd-some (expired ∷ polls) h = (_, refl)

-- The test that ends a loop is right, where the time left fits an `int`.
pub not_positive-late :
    (deadline now : ℕ)
    → now < deadline + 2 ^ 31
    → deadline < now + 2 ^ 31
    → not_positive (remaining_ms deadline now) ≡ leb deadline now
not_positive-late deadline now h k = ground arith

pub after_wait-Advances :
    {A : Type 0} (polls : List Poll) (deadline : ℕ) (os : Os) (next : Progress A)
    → PollEnds polls
    → Advances deadline os next
    → Advances deadline os (after_wait (wait_fd polls) os next)
after_wait-Advances polls deadline os next ends h =
    let (z, e) = wait_fd-some polls ends in rw e (decided z)
  where
    decided : (z : ℤ) → Advances deadline os (after_wait (some z) os next)
    decided (pos n) = h
    decided (negsuc n) = tt

write_fd-Advances :
    (ios : List Io) (deadline : ℕ) (rest : List ℕ) (os : Os)
    → IoEnds ios
    → os.now < deadline
    → Advances deadline os (write_fd ios rest os)
unfolding write_fd
write_fd-Advances [] deadline rest os ends h = absurd ends
write_fd-Advances (count k ∷ ios) deadline rest os ends h = ground arith
write_fd-Advances (failed e ∷ ios) deadline rest os ends h = ground arith

write_round-Advances :
    (r : Round) (deadline : ℕ) (rest : List ℕ) (os : Os)
    → Answers r
    → os.now < deadline + 2 ^ 31
    → deadline < os.now + 2 ^ 31
    → Advances deadline os (write_round r deadline rest os)
unfolding write_round
write_round-Advances r deadline rest os a h k =
    rw (not_positive-late deadline os.now h k) (elim (Bool-cases (leb deadline os.now)) [
      | inl late ↦ rw late tt
      | inr early ↦ rw early (
          after_wait-Advances r.polls deadline os _ a.polls
            (write_fd-Advances r.ios deadline rest os a.ios (ground arith)))
    ])

write_loop-returns :
    (script : List Round) (deadline written : ℕ) (rest : List ℕ) (os : Os)
    → os.now < deadline
    → deadline < os.now + 2 ^ 31
    → LastsUntil deadline os.now script
    → (z : ℤ) × (os' : Os) × (write_loop script deadline written rest os ≡ done z os')
unfolding write_loop
write_loop-returns script deadline written [] os h k last = (pos written, os, refl)
write_loop-returns [] deadline written (b ∷ rest) os h k last = absurd (omega arith)
write_loop-returns (r ∷ script) deadline written (b ∷ rest) os h k last =
    step (write_round r deadline (b ∷ rest) (tick r script os))
      (write_round-Advances r deadline (b ∷ rest) (tick r script os) last.0 later (omega arith))
      (write_loop-returns script deadline)
  where
    later : os.now + r.elapsed < deadline + 2 ^ 31
    later = omega (arith, last.0.soon)

    step :
        (p : Progress ℕ)
        → Advances deadline (tick r script os) p
        → ((written : ℕ) (rest : List ℕ) (mid : Os)
            → mid.now < deadline
            → deadline < mid.now + 2 ^ 31
            → LastsUntil deadline mid.now script
            → (z : ℤ) × (os' : Os) × (write_loop script deadline written rest mid ≡ done z os'))
        → (z : ℤ) × (os' : Os) × (elim p [
          | returns status os' ↦ done status os'
          | goes_on len os' ↦ write_loop script deadline (written + len) (drop len (b ∷ rest)) os'
          | waits ↦ blocked
        ]
            ≡ done z os')
    step (returns z os') adv ih = (z, os', refl)
    step (goes_on len mid) adv ih =
        ih (written + len) (drop len (b ∷ rest)) mid (omega arith) (omega arith) (rw adv.0 last.1)
    step waits adv ih = absurd adv

-- `write_all_fd` returns, whatever its calls return, if the clock reaches its deadline.
pub write_all_fd-returns :
    (buf : List ℕ) (timeout_ms : ℕ) (os : Os)
    → timeout_ms < 2 ^ 31
    → LastsUntil (deadline_for os.now timeout_ms) os.now os.script
    → (z : ℤ) × (os' : Os) × (write_all_fd (bytes buf) timeout_ms os ≡ done z os')
unfolding write_all_fd
write_all_fd-returns buf timeout_ms os small last =
    write_loop-returns os.script (deadline_for os.now timeout_ms) 0 buf os (ground arith)
      (ground arith) last
