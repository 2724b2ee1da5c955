-- ===== src/Com/Fd.antt =====
-- The loops over `poll`, `read` and `write`, src/raspike_com.c, lines 41 to 108.
pub mod Writes
pub mod Deadline
use libraspike_art.Base.{
  ℕ, ◌+◌, ◌-◌, ◌<◌, min, ◌||◌, Bool, true, false, List, [], ◌∷◌, ◌++◌, Option, none, some, ltb, leb,
  ◌==◌, if◌then◌else◌, length, Action, done, blocked, ◌==ℤ◌, take, drop, ℤ, pos, negsuc, neg,
  is_neg, signed32, unsigned32, sub_ℕ,
}
use libraspike_art.Base.Errno.{eintr, eio, eagain, epipe, etimedout, einval}
use libraspike_art.Com.Os.{Poll, ready, hangup, expired, poll_failed, Io, count, failed, Round, Os}

abbrev pub default_io_timeout_ms : ℕ
default_io_timeout_ms = 1000

-- `(int)(deadline - monotonic_ms())`
abbrev pub remaining_ms : ℕ → ℕ → ℤ
remaining_ms deadline now = signed32 (unsigned32 (sub_ℕ deadline now))

-- `x <= 0`
abbrev pub not_positive : ℤ → Bool
not_positive (pos n) = n == 0
not_positive (negsuc n) = true

-- `monotonic_ms() + (timeout_ms > 0 ? timeout_ms : RP_DEFAULT_IO_TIMEOUT_MS)`
abbrev pub deadline_for : ℕ → ℕ → ℕ
deadline_for now timeout_ms = now + (if ltb 0 timeout_ms then timeout_ms else default_io_timeout_ms)

-- `none`: no more is said of `poll`.
unfoldable pub wait_fd : List Poll → Option ℤ
wait_fd [] = none
wait_fd (poll_failed e ∷ polls) = if e == eintr then wait_fd polls else some (neg e)
wait_fd (expired ∷ polls) = some (neg etimedout)
wait_fd (hangup ∷ polls) = some (neg eio)
wait_fd (ready ∷ polls) = some (pos 0)

-- What one round of a loop comes to: the loop returns, goes on with what was moved, or waits.
pub data Progress (A : Type 0) : Type 0 where
  returns : ℤ → Os → Progress A
  goes_on : A → Os → Progress A
  waits : Progress A

-- The clock is read and the round begins.
abbrev pub tick : Round → List Round → Os → Os
tick r script os = record os { now = os.now + r.elapsed; script = script }

-- What follows on the result of `wait_fd`.
abbrev pub after_wait : {A : Type 0} → Option ℤ → Os → Progress A → Progress A
after_wait none os next = waits
after_wait (some status) os next = if is_neg status then returns status os else next

-- `write` and what the loop makes of its result; `rest` is `buf[written..size)`.
unfoldable pub write_fd : List Io → List ℕ → Os → Progress ℕ
write_fd [] rest os = waits
write_fd (count k ∷ ios) rest os =
    let len = min k (length rest) in
    if len == 0
    then returns (neg eio) os
    else goes_on len (record os { output = os.output ++ take len rest })
write_fd (failed e ∷ ios) rest os =
    if e == eintr || e == eagain then goes_on 0 os else returns (neg e) os

-- One round of the loop in `write_all_fd`, the clock being read.
unfoldable pub write_round : Round → ℕ → List ℕ → Os → Progress ℕ
unfolding wait_fd write_fd
write_round r deadline rest os =
    if not_positive (remaining_ms deadline os.now)
    then returns (neg etimedout) os
    else after_wait (wait_fd r.polls) os (write_fd r.ios rest os)

-- `while (written < size)`; `rest` is `buf[written..size)`.
unfoldable pub write_loop : List Round → ℕ → ℕ → List ℕ → Action Os ℤ
unfolding write_round
write_loop script deadline written [] os = done (pos written) os
write_loop [] deadline written (b ∷ rest) os = blocked
write_loop (r ∷ script) deadline written (b ∷ rest) os =
    elim (write_round r deadline (b ∷ rest) (tick r script os)) [
      | returns status os' ↦ done status os'
      | goes_on len os' ↦ write_loop script deadline (written + len) (drop len (b ∷ rest)) os'
      | waits ↦ blocked
    ]

-- A pointer and the size beside it: a null pointer with any size, or the bytes that it points to.
pub data Buf : Type 0 where
  null : ℤ → Buf
  bytes : List ℕ → Buf

-- `write_all_fd` on an open descriptor. Its `size` is a `size_t`.
unfoldable pub write_all_fd : Buf → ℕ → Action Os ℤ
unfolding write_loop
write_all_fd (null size) timeout_ms os =
    if size ==ℤ pos 0 then done (pos 0) os else done (neg einval) os
write_all_fd (bytes buf) timeout_ms os =
    write_loop os.script (deadline_for os.now timeout_ms) 0 buf os

-- The `for` loop of `read_some_fd` over `read`, with the bytes that it stores.
unfoldable pub read_fd : List Io → ℕ → Os → Progress (List ℕ)
read_fd [] size os = waits
read_fd (count k ∷ ios) size os =
    let got = take (min k size) os.input in
    if length got == 0
    then returns (neg epipe) os
    else goes_on got (record os { input = drop (length got) os.input })
read_fd (failed e ∷ ios) size os =
    if e == eintr
    then read_fd ios size os
    else if e == eagain
    then returns (neg eagain) os
    else returns (neg e) os

-- `read_some_fd` on an open descriptor, into an array of `size` bytes.
unfoldable pub read_some_fd : Round → ℕ → Os → Progress (List ℕ)
unfolding wait_fd read_fd
read_some_fd r size os =
    if size == 0
    then returns (neg einval) os
    else after_wait (wait_fd r.polls) os (read_fd r.ios size os)
