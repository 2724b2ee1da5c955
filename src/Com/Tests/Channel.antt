-- ===== src/Com/Tests/Channel.antt =====
-- Runs of the functions of src/raspike_com.c on a line with a send buffer.
use libraspike_art.Com.Clock.{monotonic_ms, deadline_after_ms, monotonic_ms-deadline_after_ms}
use libraspike_art.Base.{arith, ◌<◌, ◌+◌, ◌≡◌, refl, inl, inr, [], ◌∷◌, ◌++◌, pos}
use libraspike_art.Com.Fd.{write_all_fd, write_loop, write_round, write_fd, wait_fd}
use libraspike_art.Com.Usb.{
  Com, normal, buffered, com_send, com_flush, usb_flush, usb_send, usb_set_mode, buffered_write,
  flush_buffer_locked,
}
use libraspike_art.Com.Usb.Stream.{stream}
use libraspike_art.Com.Usb.Channel.{
  sends, flushes, sets_mode, accept_all, Clear, Runs, stop, next, Runs-accept_all,
}
use libraspike_art.Com.Usb.Overtakes.{usb_set_mode-overtakes}
use libraspike_art.Com.Tests.{moves, os_with, descriptor}

abbrev fresh : Com
fresh = record { os = os_with (moves 5 ∷ []) [] []; buffer = []; mode = normal }

-- Two bytes are buffered and flushed.
abbrev drained : Com
drained = record {
  os = record (os_with [] [] (7 ∷ 8 ∷ [])) { now = 1005 };
  buffer = [];
  mode = buffered;
}

abbrev drain : Runs descriptor (sets_mode (pos 1) ∷ sends (7 ∷ 8 ∷ []) ∷ flushes ∷ []) fresh drained
unfolding com_send com_flush usb_flush usb_send usb_set_mode buffered_write flush_buffer_locked
    write_all_fd write_loop write_round write_fd wait_fd
drain = next {c' = record fresh { mode = buffered }} (pos 0) (inl refl) refl refl (
    next {c' = record fresh { mode = buffered; buffer = 7 ∷ 8 ∷ [] }} (pos 2) tt refl refl
      (next {c' = drained} (pos 0) tt refl refl stop))

Runs-accept_all_example :
    Clear drained
    × (stream drained
        ≡ accept_all (sets_mode (pos 1) ∷ sends (7 ∷ 8 ∷ []) ∷ flushes ∷ []) (stream fresh))
Runs-accept_all_example = Runs-accept_all descriptor _ fresh drained (inr refl) drain

-- The byte 9 is sent while 5 and 6 wait.
abbrev waiting : Com
waiting = record {
  os = os_with (moves 5 ∷ moves 5 ∷ []) [] [];
  buffer = 5 ∷ 6 ∷ [];
  mode = buffered;
}

abbrev overtaken : Com
overtaken = record {
  os = record (os_with (moves 5 ∷ []) [] (9 ∷ [])) { now = 1005 };
  buffer = 5 ∷ 6 ∷ [];
  mode = normal;
}

abbrev flushed : Com
flushed = record {
  os = record (os_with [] [] (9 ∷ 5 ∷ 6 ∷ [])) { now = 1010 };
  buffer = [];
  mode = normal;
}

usb_set_mode-overtakes_example :
    flushed.os.output ≡ waiting.os.output ++ ((9 ∷ []) ++ waiting.buffer)
unfolding usb_send usb_set_mode flush_buffer_locked write_all_fd write_loop write_round write_fd
    wait_fd
usb_set_mode-overtakes_example =
    usb_set_mode-overtakes descriptor (9 ∷ []) waiting overtaken flushed (pos 1) (pos 2) refl refl
      refl refl

-- 1.5 s after 2.9 s.
monotonic_ms-deadline_after_ms_example :
    ((deadline_after_ms 1500 (record { tv_sec = 2; tv_nsec = 900000000 })).tv_nsec < 1000000000)
    × (monotonic_ms (deadline_after_ms 1500 (record { tv_sec = 2; tv_nsec = 900000000 }))
        ≡ monotonic_ms (record { tv_sec = 2; tv_nsec = 900000000 }) + 1500)
monotonic_ms-deadline_after_ms_example =
    monotonic_ms-deadline_after_ms 1500 (record { tv_sec = 2; tv_nsec = 900000000 }) (omega arith)
