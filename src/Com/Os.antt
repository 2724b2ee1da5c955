-- ===== src/Com/Os.antt =====
-- What src/raspike_com.c asks of the operating system: `clock_gettime`, `poll`, `read`, `write`,
-- `tcflush` and `close`. Their results are scripted, so that every behaviour is an input.
use libraspike_art.Base.{ℕ, List}

-- How one `poll` ends: an event, an error condition in `revents`, 0, or -1 with this `errno`.
pub data Poll : Type 0 where
  ready hangup expired : Poll
  poll_failed : ℕ → Poll

-- How one `read` or `write` ends: with at most this many bytes moved, or -1 with this `errno`.
pub data Io : Type 0 where
  count : ℕ → Io
  failed : ℕ → Io

-- How one `tcflush` or `close` ends: 0, with this many bytes of input dropped, or -1 with this
-- `errno`.
pub data Control : Type 0 where
  accepted : ℕ → Control
  refused : ℕ → Control

-- One round of a transfer loop: the milliseconds since the last reading of the clock, and how the
-- calls of the round end, a repeated call after the one before.
pub record Round : Type 0 where
  pub elapsed : ℕ
  pub polls : List Poll
  pub ios : List Io

pub record Os : Type 0 where
  pub now : ℕ  -- CLOCK_MONOTONIC, in milliseconds
  pub script : List Round
  pub controls : List Control
  pub input : List ℕ  -- what the device will hand over, oldest byte first
  pub output : List ℕ  -- what was written to the device
