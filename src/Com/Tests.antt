-- ===== src/Com/Tests.antt =====
-- A serial line on which everything goes well but for what a test says.
pub mod Channel
use libraspike_art.Base.{
  length, ℕ, ◌≤◌, ◌≡◌, ◌⊎◌, inl, refl, List, [], ◌∷◌, ◌++◌, some, none, true, ℤ, pos, neg, done,
  arith,
}
use libraspike_art.Base.Errno.{eio}
use libraspike_art.Com.Os.{Os, Round, ready, count, failed}
use libraspike_art.Com.Fd.{bytes, write_all_fd, write_loop, write_round, write_fd, wait_fd, read_fd}
use libraspike_art.Com.Fd.Writes.{Written, write_all_fd-Written}
use libraspike_art.Com.Fd.Deadline.{write_all_fd-returns}
use libraspike_art.Com.Usb.{
  send_buffer_size, com_send, Com, Descriptor, buffered, normal, usb_send, buffered_write,
  flush_buffer_locked, com_receive_timeout, receive_loop, receive_round, usb_receive, retry,
}
use libraspike_art.Com.Usb.Reads.{Received, com_receive_timeout-Received}
use libraspike_art.Com.Usb.Prompt.{IsOpen, Prompt, taken, com_receive_timeout_all}
use libraspike_art.Com.Usb.Stream.{
  Sent, Flushed, usb_send-Sent, flush_buffer_locked-Flushed, flush_retry_duplicates,
}
use libraspike_art.Com.Usb.Ends.{com_receive_timeout-returns}
use libraspike_art.Com.Usb.Bounds.{com_send_bounded}
use libraspike_art.Com.Usb.Open.{open_usb_communication}
use libraspike_art.Com.Usb.Owned.{Owns, open_usb_communication-owned}

-- A round that moves up to `n` bytes after 5 ms.
abbrev pub moves : ℕ → Round
moves n = record { elapsed = 5; polls = ready ∷ []; ios = count n ∷ [] }

-- A round in which the call fails.
abbrev fails : Round
fails = record { elapsed = 5; polls = ready ∷ []; ios = failed eio ∷ [] }

abbrev pub os_with : List Round → List ℕ → List ℕ → Os
os_with script input output = record {
  now = 1000;
  script = script;
  controls = [];
  input = input;
  output = output;
}

abbrev pub descriptor : Descriptor
descriptor = record {
  kind = 1;
  desc = pos 3;
  io_timeout_ms = 1000;
  has_send = true;
  has_receive = true;
  has_close = true;
  has_flush = true;
}

abbrev pub descriptor-IsOpen : IsOpen descriptor
descriptor-IsOpen = record { receives = refl; usable = refl }

-- `7 8 9` is written in two rounds.
abbrev two_rounds : Os
two_rounds = os_with (moves 2 ∷ moves 5 ∷ []) [] (1 ∷ [])

write_all_fd-Written_example :
    Written
      (7 ∷ 8 ∷ 9 ∷ [])
      3
      two_rounds
      (pos 3)
      (record two_rounds { now = 1010; script = []; output = 1 ∷ 7 ∷ 8 ∷ 9 ∷ [] })
unfolding write_all_fd write_loop write_round write_fd wait_fd
write_all_fd-Written_example = write_all_fd-Written (7 ∷ 8 ∷ 9 ∷ []) 1000 two_rounds (pos 3) _ refl

-- The device takes one byte and then fails.
abbrev buffered_com : List Round → Com
buffered_com script = record { os = os_with script [] []; buffer = 5 ∷ 6 ∷ []; mode = buffered }

usb_send-Sent_example :
    Sent (7 ∷ []) (buffered_com []) (pos 1) (record (buffered_com []) { buffer = 5 ∷ 6 ∷ 7 ∷ [] })
unfolding usb_send buffered_write
usb_send-Sent_example =
    usb_send-Sent descriptor (7 ∷ []) (buffered_com []) (pos 1)
      (record (buffered_com []) { buffer = 5 ∷ 6 ∷ 7 ∷ [] }) (inl refl) refl

-- The clock passes the deadline of 3 ms in the first round.
write_all_fd-returns_example :
    (z : ℤ) × (os' : Os) × (write_all_fd (bytes (7 ∷ 8 ∷ 9 ∷ [])) 3 (os_with (moves 2 ∷ []) [] [])
      ≡ done z os')
write_all_fd-returns_example =
    write_all_fd-returns (7 ∷ 8 ∷ 9 ∷ []) 3 (os_with (moves 2 ∷ []) [] []) (omega arith)
      (record { polls = tt; ios = tt; soon = omega arith }, omega arith)

-- A flush of two bytes of which the first is taken, and the next flush.
abbrev half_way : Com
half_way = record {
  os = record (os_with (moves 2 ∷ []) [] (5 ∷ [])) { now = 1010 };
  buffer = 5 ∷ 6 ∷ [];
  mode = buffered;
}

abbrev flushed_twice : Com
flushed_twice = record {
  os = record (os_with [] [] (5 ∷ 5 ∷ 6 ∷ [])) { now = 1015 };
  buffer = [];
  mode = buffered;
}

flush_buffer_locked-Flushed_example :
    Flushed (buffered_com (moves 1 ∷ fails ∷ moves 2 ∷ [])) (neg eio) half_way
unfolding flush_buffer_locked write_all_fd write_loop write_round write_fd wait_fd
flush_buffer_locked-Flushed_example =
    flush_buffer_locked-Flushed (some descriptor) (buffered_com (moves 1 ∷ fails ∷ moves 2 ∷ []))
      (neg eio) half_way refl

flush_retry_duplicates_example :
    (sent unsent : List ℕ) × (5 ∷ 6 ∷ [] ≡ sent ++ unsent)
    × (5 ∷ [] ≡ [] ++ sent)
    × (5 ∷ 5 ∷ 6 ∷ [] ≡ [] ++ sent ++ (sent ++ unsent))
unfolding flush_buffer_locked write_all_fd write_loop write_round write_fd wait_fd
flush_retry_duplicates_example =
    flush_retry_duplicates (some descriptor) (buffered_com (moves 1 ∷ fails ∷ moves 2 ∷ []))
      (neg eio) half_way (pos 2) flushed_twice refl refl refl refl

abbrev reading : Com
reading = record {
  os = os_with (moves 2 ∷ moves 9 ∷ []) (7 ∷ 8 ∷ 9 ∷ 4 ∷ []) [];
  buffer = [];
  mode = normal;
}

com_receive_timeout-Received_example :
    Received 3 []
      (reading.os)
      (pos 3)
      (7 ∷ 8 ∷ 9 ∷ [])
      (record (os_with [] (4 ∷ []) []) { now = 1010 })
unfolding com_receive_timeout receive_loop receive_round usb_receive retry wait_fd read_fd
com_receive_timeout-Received_example =
    com_receive_timeout-Received descriptor 3 1000 reading (pos 3) (7 ∷ 8 ∷ 9 ∷ [])
      (record reading { os = record (os_with [] (4 ∷ []) []) { now = 1010 } }) (omega arith) refl

pub moves-Prompt : (n k : ℕ) → n ≤ k → Prompt n (moves k)
unfolding wait_fd
moves-Prompt n k h = record {
  polls = refl;
  room = k;
  others = [];
  ios = refl;
  enough = h;
  soon = omega arith;
}

open_usb_communication-owned_example :
    ((d : Descriptor) × ((open_usb_communication true (record {
      opened = pos 4;
      got_attributes = true;
      set_attributes = true;
      allocated = true;
    })
          ≡ (some d, []))
        × Owns 4 d))
    ⊎ (open_usb_communication true (record {
      opened = pos 4;
      got_attributes = true;
      set_attributes = true;
      allocated = true;
    })
        ≡ (none, pos 4 ∷ []))
open_usb_communication-owned_example = open_usb_communication-owned 4 true true true

-- The clock passes the deadline of 3 ms in the first round.
com_receive_timeout-returns_example :
    (p : ℤ × List ℕ) × (c' : Com) × (com_receive_timeout (some descriptor) 3 3 reading ≡ done p c')
com_receive_timeout-returns_example =
    com_receive_timeout-returns descriptor 3 3 reading (omega arith) (
      record { polls = tt; ios = tt; soon = omega arith },
      (record { polls = tt; ios = tt; soon = omega arith }, omega arith),
    )

com_send_bounded_example : length {A = ℕ} (5 ∷ 6 ∷ 7 ∷ []) ≤ send_buffer_size
unfolding com_send usb_send buffered_write
com_send_bounded_example =
    com_send_bounded (some descriptor) (bytes (7 ∷ [])) (buffered_com [])
      (record (buffered_com []) { buffer = 5 ∷ 6 ∷ 7 ∷ [] }) (pos 1) (omega arith) refl
