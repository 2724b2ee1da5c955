-- ===== src/Com/Usb/Calm.antt =====
-- No function of src/raspike_com.c accesses memory through NULL: what it is given it checks.
use libraspike_art.Base.{
  ℕ, zero, suc, ◌+◌, ◌-◌, not, Option, none, some, List, [], ◌∷◌, ◌++◌, ltb, ◌==◌, length, drop, ℤ,
  pos, is_neg, ◌==ℤ◌, Outcome, done, blocked, fault, Calm, bind-Calm, within-Calm, either-Calm,
}
use libraspike_art.Com.Os.{Os, Round}
use libraspike_art.Com.Fd.{
  Buf, null, bytes, Progress, returns, goes_on, waits, tick, write_round, write_loop, write_all_fd,
}
use libraspike_art.Com.Usb.{
  Com, Descriptor, get_usb_fd, is_buffered, buf_size, buffered_write, after_flush, timeout_of,
  flush_buffer_locked, usb_send, usb_flush, com_send, com_flush, receive_round, receive_loop,
  com_receive_timeout,
}

abbrev moved :
    {A B : Type 0} → Progress A → (ℤ → Os → Outcome Os B) → (A → Os → Outcome Os B) → Outcome Os B
moved p ends more = elim p [ returns z os ↦ ends z os | goes_on a os ↦ more a os | waits ↦ blocked ]

moved-Calm :
    {A B : Type 0} (p : Progress A) (ends : ℤ → Os → Outcome Os B) (more : A → Os → Outcome Os B)
    → ((z : ℤ) (os : Os) → Calm (ends z os))
    → ((a : A) (os : Os) → Calm (more a os))
    → Calm (moved p ends more)
moved-Calm (returns z os) ends more h k = h z os
moved-Calm (goes_on a os) ends more h k = k a os
moved-Calm waits ends more h k = tt

write_loop-Calm :
    (script : List Round) (deadline written : ℕ) (rest : List ℕ) (os : Os)
    → Calm (write_loop script deadline written rest os)
unfolding write_loop
write_loop-Calm script deadline written [] os = tt
write_loop-Calm [] deadline written (b ∷ rest) os = tt
write_loop-Calm (r ∷ script) deadline written (b ∷ rest) os =
    moved-Calm (write_round r deadline (b ∷ rest) (tick r script os)) _ _ (λ z os. tt)
      (λ len os. write_loop-Calm script deadline (written + len) (drop len (b ∷ rest)) os)

write_all_fd-Calm : (buf : Buf) (timeout_ms : ℕ) (os : Os) → Calm (write_all_fd buf timeout_ms os)
unfolding write_all_fd
write_all_fd-Calm (null size) timeout_ms os = either-Calm (size ==ℤ pos 0) _ _ tt tt
write_all_fd-Calm (bytes buf) timeout_ms os = write_loop-Calm os.script _ 0 buf os

receive_loop-Calm :
    (d : Descriptor) (script : List Round) (deadline left : ℕ) (buf : List ℕ) (os : Os)
    → Calm (receive_loop d script deadline left buf os)
unfolding receive_loop
receive_loop-Calm d script deadline zero buf os = tt
receive_loop-Calm d [] deadline (suc left) buf os = tt
receive_loop-Calm d (r ∷ script) deadline (suc left) buf os =
    moved-Calm (receive_round d r deadline (suc left) (tick r script os)) _ _ (λ z os. tt)
      (λ got os. receive_loop-Calm d script deadline (suc left - length got) (buf ++ got) os)

pub com_receive_timeout-Calm :
    (d : Option Descriptor) (size timeout_ms : ℕ) (c : Com)
    → Calm (com_receive_timeout d size timeout_ms c)
unfolding com_receive_timeout
com_receive_timeout-Calm none size timeout_ms c = tt
com_receive_timeout-Calm (some d) size timeout_ms c = either-Calm (not d.has_receive) _ _ tt (
    either-Calm (size == 0) _ _ tt (
      within-Calm (receive_loop d c.os.script _ size [] c.os) (λ os c. record c { os = os }) c
        (receive_loop-Calm d c.os.script _ size [] c.os)))

buffered_write-Calm : (buf : Buf) (c : Com) → Calm (buffered_write buf c)
unfolding buffered_write
buffered_write-Calm (null size) c = either-Calm (size ==ℤ pos 0) _ _ tt tt
buffered_write-Calm (bytes buf) c =
    either-Calm (ltb 4096 (length buf)) _ _ tt
      (either-Calm (ltb 4096 (length c.buffer + length buf)) _ _ tt tt)

pub com_send-Calm : (d : Option Descriptor) (buf : Buf) (c : Com) → Calm (com_send d buf c)
unfolding com_send usb_send
com_send-Calm none buf c = tt
com_send-Calm (some d) buf c =
    either-Calm d.has_send _ _
      (either-Calm (is_neg (buf_size buf)) _ _ tt (
        either-Calm (is_buffered c.mode) _ _ (buffered_write-Calm buf c) (
          either-Calm (is_neg (get_usb_fd (some d))) _ _ tt (
            within-Calm (write_all_fd buf d.io_timeout_ms c.os) (λ os c. record c { os = os }) c
              (write_all_fd-Calm buf d.io_timeout_ms c.os)))))
      tt

after_flush-Calm : (o : Outcome Os ℤ) (c : Com) → Calm o → Calm (after_flush o c)
after_flush-Calm (done ret os) c h = either-Calm (is_neg ret) _ _ tt tt
after_flush-Calm blocked c h = tt
after_flush-Calm fault c h = h

flush_buffer_locked-Calm : (d : Option Descriptor) (c : Com) → Calm (flush_buffer_locked d c)
unfolding flush_buffer_locked
flush_buffer_locked-Calm d c = either-Calm (length c.buffer == 0) _ _ tt (
    either-Calm (is_neg (get_usb_fd d)) _ _ tt (
      after_flush-Calm (write_all_fd (bytes c.buffer) (timeout_of d) c.os) c
        (write_all_fd-Calm (bytes c.buffer) (timeout_of d) c.os)))

pub com_flush-Calm : (d : Option Descriptor) (c : Com) → Calm (com_flush d c)
unfolding com_flush usb_flush
com_flush-Calm none c = tt
com_flush-Calm (some d) c =
    either-Calm d.has_flush _ _
      (bind-Calm (flush_buffer_locked (some d) c) _ (flush_buffer_locked-Calm (some d) c)
        (λ ret c. tt))
      tt
