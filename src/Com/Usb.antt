-- ===== src/Com/Usb.antt =====
-- The descriptor, the send buffer and the exported functions, src/raspike_com.c, lines 15 to 39 and
-- 110 to 292.
pub mod Open
pub mod Bounds
pub mod Calm
pub mod Channel
pub mod Overtakes
pub mod Ends
pub mod Owned
pub mod Reads
pub mod Rounds
pub mod Prompt
pub mod Stream
use libraspike_art.Base.{
  ℕ, ◌+◌, ◌-◌, ◌||◌, not, Bool, true, false, List, [], ◌∷◌, ◌++◌, Option, none, some, ltb, ◌==◌,
  if◌then◌else◌, length, zero, suc, drop, ℤ, pos, negsuc, neg, is_neg, ◌==ℤ◌, Outcome, Action, done,
  blocked, fault, pure, ◌>>=◌, ◌>>◌, gets, modify, within,
}
use libraspike_art.Base.Errno.{eintr, einval, eagain, etimedout, enobufs}
use libraspike_art.Com.Os.{Os, Round, Control, accepted, refused}
use libraspike_art.Com.Fd.{
  Buf, null, bytes, Progress, returns, goes_on, waits, tick, default_io_timeout_ms, not_positive,
  remaining_ms, deadline_for, write_all_fd, read_some_fd,
}

abbrev pub com_type_usb : ℕ
com_type_usb = 1

abbrev pub send_buffer_size : ℕ
send_buffer_size = 4096

-- `RASPIKE_USB_MODE_NORMAL` and `RASPIKE_USB_MODE_BUFFERED`
pub data Mode : Type 0 where
  normal buffered : Mode

-- `struct _RPComDescriptor`. A function pointer is null or the function of this file.
pub record Descriptor : Type 0 where
  pub kind : ℕ
  pub desc : ℤ
  pub io_timeout_ms : ℕ
  pub has_send : Bool
  pub has_receive : Bool
  pub has_close : Bool
  pub has_flush : Bool

-- The static variables of the file, and the system behind them. `buffer` is the first
-- `fg_send_buffer_size` bytes of `fg_send_buffer`.
pub record Com : Type 0 where
  pub os : Os
  pub buffer : List ℕ
  pub mode : Mode

abbrev on_os : {A : Type 0} → Action Os A → Action Com A
on_os = within Com.os (λ os c. record c { os = os })

-- -1 where the code returns -1 and sets `errno`.
abbrev pub get_usb_fd : Option Descriptor → ℤ
get_usb_fd none = neg 1
get_usb_fd (some d) = if d.kind == com_type_usb then d.desc else neg 1

-- The `size` beside a pointer.
abbrev pub buf_size : Buf → ℤ
buf_size (null size) = size
buf_size (bytes buf) = pos (length buf)

unfoldable pub buffered_write : Buf → Action Com ℤ
buffered_write (null size) c = if size ==ℤ pos 0 then done (pos 0) c else done (neg einval) c
buffered_write (bytes buf) c =
    if ltb send_buffer_size (length buf)
    then done (neg einval) c
    else if ltb send_buffer_size (length c.buffer + length buf)
    then done (neg enobufs) c
    else done (pos (length buf)) (record c { buffer = c.buffer ++ buf })

-- What `flush_buffer_locked` makes of the end of `write_all_fd`.
abbrev pub after_flush : Outcome Os ℤ → Action Com ℤ
after_flush (done ret os) c =
    if is_neg ret
    then done ret (record c { os = os })
    else done ret (record c { os = os; buffer = [] })
after_flush blocked c = blocked
after_flush fault c = fault

abbrev pub timeout_of : Option Descriptor → ℕ
timeout_of none = 0
timeout_of (some d) = d.io_timeout_ms

-- A null descriptor is refused by `get_usb_fd`, before its timeout is read.
unfoldable pub flush_buffer_locked : Option Descriptor → Action Com ℤ
unfolding write_all_fd
flush_buffer_locked d c =
    if length c.buffer == 0
    then done (pos 0) c
    else if is_neg (get_usb_fd d)
    then done (neg einval) c
    else after_flush (write_all_fd (bytes c.buffer) (timeout_of d) c.os) c

-- `void`; the result of the flush is only logged.
unfoldable pub usb_buffer_flush : Option Descriptor → Action Com (Unit {0})
unfolding flush_buffer_locked
usb_buffer_flush d = flush_buffer_locked d >>= λ _. pure tt

-- The only mode that is not `normal` is `RASPIKE_USB_MODE_BUFFERED`.
unfoldable pub usb_set_mode : ℤ → Action Com (Unit {0})
usb_set_mode mode = modify λ c. record c { mode = if mode ==ℤ pos 1 then buffered else normal }

abbrev is_buffered : Mode → Bool
is_buffered buffered = true
is_buffered normal = false

unfoldable pub usb_send : Descriptor → Buf → Action Com ℤ
unfolding buffered_write write_all_fd
usb_send d buf c =
    if is_neg (buf_size buf)
    then done (neg einval) c
    else if is_buffered c.mode
    then buffered_write buf c
    else if is_neg (get_usb_fd (some d))
    then done (neg einval) c
    else on_os (write_all_fd buf d.io_timeout_ms) c

unfoldable pub usb_receive : Descriptor → Round → ℕ → Os → Progress (List ℕ)
unfolding read_some_fd
usb_receive d r size os =
    if size == 0
    then returns (neg einval) os
    else if is_neg (get_usb_fd (some d))
    then returns (neg einval) os
    else read_some_fd r size os

-- `close` and `tcflush` end as the script says, by default with success.
abbrev control : List Control → Os → Outcome Os ℤ
control [] os = done (pos 0) os
control (accepted n ∷ controls) os =
    done (pos 0) (record os { controls = controls; input = drop n os.input })
control (refused code ∷ controls) os = done (neg code) (record os { controls = controls })

-- The descriptor's `desc = -1` is not seen: its only caller frees the descriptor.
unfoldable pub usb_close : Descriptor → Action Com ℤ
usb_close d c =
    if is_neg (get_usb_fd (some d))
    then done (neg einval) c
    else on_os (λ os. control os.controls os) c

unfoldable pub usb_flush : Descriptor → Action Com ℤ
unfolding flush_buffer_locked
usb_flush d = flush_buffer_locked (some d) >>= λ ret. pure (if is_neg ret then ret else pos 0)

unfoldable pub com_discard_input : Option Descriptor → Action Com ℤ
com_discard_input d c =
    if is_neg (get_usb_fd d) then done (neg einval) c else on_os (λ os. control os.controls os) c

unfoldable pub com_send : Option Descriptor → Buf → Action Com ℤ
unfolding usb_send
com_send none buf c = done (neg einval) c
com_send (some d) buf c = if d.has_send then usb_send d buf c else done (neg einval) c

-- Which results of `desc->receive` the loop goes on after.
unfoldable pub retry : Progress (List ℕ) → Progress (List ℕ)
retry (returns len os) =
    if len ==ℤ neg eagain || len ==ℤ neg eintr then goes_on [] os else returns len os
retry (goes_on got os) = goes_on got os
retry waits = waits

-- One round of the loop in `raspike_com_receive_timeout`, the clock being read.
unfoldable pub receive_round : Descriptor → Round → ℕ → ℕ → Os → Progress (List ℕ)
unfolding usb_receive retry
receive_round d r deadline left os =
    if not_positive (remaining_ms deadline os.now)
    then returns (neg etimedout) os
    else retry (usb_receive d r left os)

-- `while (received < size)`, with `left` bytes to go and the bytes stored so far in `buf`.
unfoldable pub receive_loop : Descriptor → List Round → ℕ → ℕ → List ℕ → Action Os (ℤ × List ℕ)
unfolding receive_round
receive_loop d script deadline zero buf os = done (pos (length buf), buf) os
receive_loop d [] deadline (suc left) buf os = blocked
receive_loop d (r ∷ script) deadline (suc left) buf os =
    elim (receive_round d r deadline (suc left) (tick r script os)) [
      | returns len os' ↦ done (len, buf) os'
      | goes_on got os' ↦ receive_loop d script deadline (suc left - length got) (buf ++ got) os'
      | waits ↦ blocked
    ]

-- `raspike_com_receive_timeout` into an array of `size` bytes; it gives the bytes stored, too.
-- `size` is never negative and the array never null at the calls of the library.
unfoldable pub com_receive_timeout : Option Descriptor → ℕ → ℕ → Action Com (ℤ × List ℕ)
unfolding receive_loop
com_receive_timeout none size timeout_ms c = done (neg einval, []) c
com_receive_timeout (some d) size timeout_ms c =
    if not d.has_receive
    then done (neg einval, []) c
    else if size == 0
    then done (pos 0, []) c
    else on_os (λ os. receive_loop d os.script (deadline_for os.now timeout_ms) size [] os) c

unfoldable pub com_receive : Option Descriptor → ℕ → Action Com (ℤ × List ℕ)
unfolding com_receive_timeout
com_receive d size = com_receive_timeout d size default_io_timeout_ms

unfoldable pub com_close : Option Descriptor → Action Com ℤ
unfolding usb_close
com_close none c = done (neg einval) c
com_close (some d) c = if d.has_close then usb_close d c else done (pos 0) c

unfoldable pub com_flush : Option Descriptor → Action Com ℤ
unfolding usb_flush
com_flush none c = done (neg einval) c
com_flush (some d) c = if d.has_flush then usb_flush d c else done (neg einval) c
