-- ===== src/Com/Usb/Overtakes.antt =====
-- `raspike_usb_set_mode` of src/raspike_com.c while bytes wait in the send buffer.
use libraspike_art.Base.{
  ℕ, ◌≡◌, ap, ◌∙◌, inl, inr, false, some, List, ◌++◌, append_assoc, Bool-cases, ℤ, pos, neg, is_neg,
  done, within, done-result, ◌>>=◌, length,
}
use libraspike_art.Base.Errno.{einval}
use libraspike_art.Com.Os.{Os}
use libraspike_art.Com.Fd.{bytes, write_all_fd}
use libraspike_art.Com.Fd.Writes.{Written, write_all_fd-Written}
use libraspike_art.Com.Usb.{
  Com, Descriptor, normal, get_usb_fd, usb_send, usb_set_mode, flush_buffer_locked,
}
use libraspike_art.Com.Usb.Reads.{on_os-done, on_os_others}
use libraspike_art.Com.Usb.Stream.{Flushed, flush_buffer_locked-Flushed}
use libraspike_art.Com.Usb.Channel.{taken_whole}

-- A flush that succeeds writes the whole buffer.
Flushed-whole :
    (c : Com) (z : ℤ) (c' : Com)
    → Flushed c z c'
    → is_neg z ≡ false
    → c'.os.output ≡ c.os.output ++ c.buffer
Flushed-whole c z c' f passed = elim f.ends [
  | inl (_, nothing, _) ↦
      f.output ∙ ap (λ t. c.os.output ++ t) (taken_whole c.buffer f.sent f.unsent f.splits nothing)
  | inr (failed, _) ↦ cc
]

-- A direct write that succeeds writes all of its bytes.
Written-whole :
    (buf : List ℕ) (os os' : Os) (z : ℤ)
    → Written buf (length buf) os z os'
    → is_neg z ≡ false
    → os'.output ≡ os.output ++ buf
Written-whole buf os os' z w passed = elim w.ends [
  | inl (_, nothing) ↦
      w.output ∙ ap (λ t. os.output ++ t) (taken_whole buf w.sent w.unsent w.splits nothing)
  | inr failed ↦ cc
]

-- Bytes that wait in the send buffer when the buffered mode is left are overtaken: a send that
-- succeeds then gives the device its bytes at once, and a flush that succeeds gives it the older bytes
-- behind them.
pub usb_set_mode-overtakes :
    (d : Descriptor) (buf : List ℕ) (c mid c' : Com) (z w : ℤ)
    → (usb_set_mode (pos 0) >>= λ _. usb_send d (bytes buf)) c ≡ done z mid
    → is_neg z ≡ false
    → flush_buffer_locked (some d) mid ≡ done w c'
    → is_neg w ≡ false
    → c'.os.output ≡ c.os.output ++ (buf ++ c.buffer)
unfolding usb_set_mode usb_send
usb_set_mode-overtakes d buf c mid c' z w sent passed flushed emptied =
    elim (Bool-cases (is_neg (get_usb_fd (some d)))) [
      | inl unusable ↦
          let same : done (neg einval) (record c { mode = normal }) ≡ done z mid =
            rw unusable at sent in
          absurd (failed (done-result same))
      | inr usable ↦
          let direct : within Com.os (λ os c. record c { os = os })
                (write_all_fd (bytes buf) d.io_timeout_ms) (record c { mode = normal })
              ≡ done z mid =
            rw usable at sent in
          let ended = on_os-done _ (record c { mode = normal }) z mid direct in
          let kept = (on_os_others _ (record c { mode = normal }) z mid direct).0 in
          Flushed-whole mid w c' (flush_buffer_locked-Flushed (some d) mid w c' flushed) emptied
          ∙ ap (λ t. mid.os.output ++ t) kept
          ∙ ap (λ t. t ++ c.buffer)
              (Written-whole buf c.os mid.os z
                (write_all_fd-Written buf d.io_timeout_ms c.os z mid.os ended) passed)
          ∙ append_assoc c.os.output buf c.buffer
    ]
  where
    failed : neg einval ≡ z → ⊥
    failed e = cc
