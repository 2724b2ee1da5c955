-- ===== src/Com/Usb/Stream.antt =====
-- Sending and flushing in src/raspike_com.c, seen as one stream of bytes: those that the device was
-- given and those that wait in the send buffer.
use libraspike_art.Base.{
  ℕ, ◌+◌, ◌≡◌, refl, sym, ap, ◌∙◌, ◌⊎◌, inl, inr, true, false, Option, some, List, [], ◌++◌,
  append_assoc, append-nil, length, length-zero, ==_iff, ltb, ◌==◌, Bool-cases, ℤ, pos, neg, is_neg,
  Outcome, done, blocked, fault, within, done-result, done-state,
}
use libraspike_art.Base.Errno.{einval, enobufs}
use libraspike_art.Com.Os.{Os}
use libraspike_art.Com.Fd.{bytes, write_all_fd}
use libraspike_art.Com.Fd.Writes.{Written, write_all_fd-Written}
use libraspike_art.Com.Usb.{
  Descriptor, Com, buffered, is_buffered, get_usb_fd, send_buffer_size, buffered_write, timeout_of,
  after_flush, flush_buffer_locked, usb_send,
}
use libraspike_art.Com.Usb.Reads.{on_os-done, on_os_others}

abbrev pub stream : Com → List ℕ
stream c = c.os.output ++ c.buffer

-- A first part of `buf` was added to the stream: all of it if its length is returned, and otherwise
-- an error is returned.
pub record Sent (buf : List ℕ) (c : Com) (z : ℤ) (c' : Com) : Type 0 where
  pub sent : List ℕ
  pub unsent : List ℕ
  pub splits : buf ≡ sent ++ unsent
  pub added : stream c' ≡ stream c ++ sent
  pub ends : ((z ≡ pos (length buf)) × (unsent ≡ [])) ⊎ (is_neg z ≡ true)

-- An error that leaves everything as it was.
Sent-nothing :
    (buf : List ℕ) (c : Com) (w z : ℤ) (c' : Com)
    → is_neg w ≡ true
    → done w c ≡ done z c'
    → Sent buf c z c'
Sent-nothing buf c w z c' negative e = record {
  sent = [];
  unsent = buf;
  splits = refl;
  added = ap (λ c. stream c) (sym (done-state e)) ∙ sym (append-nil (stream c));
  ends = inr (rw (sym (done-result e)) negative);
}

buffered_write-Sent :
    (buf : List ℕ) (c : Com) (z : ℤ) (c' : Com)
    → buffered_write (bytes buf) c ≡ done z c'
    → Sent buf c z c'
unfolding buffered_write
buffered_write-Sent buf c z c' e = elim (Bool-cases (ltb send_buffer_size (length buf))) [
  | inl long ↦ Sent-nothing buf c (neg einval) z c' refl (rw long at e)
  | inr short ↦ elim (Bool-cases (ltb send_buffer_size (length c.buffer + length buf))) [
    | inl full ↦ Sent-nothing buf c (neg enobufs) z c' refl (rw (short, full) at e)
    | inr fits ↦
        let kept : done (pos (length buf)) (record c { buffer = c.buffer ++ buf }) ≡ done z c' =
          rw (short, fits) at e in
        record {
          sent = buf;
          unsent = [];
          splits = sym (append-nil buf);
          added =
              ap (λ c. stream c) (sym (done-state kept))
              ∙ sym (append_assoc c.os.output c.buffer buf);
          ends = inl (sym (done-result kept), refl);
        }
  ]
]

direct_write-Sent :
    (buf : List ℕ) (timeout_ms : ℕ) (c : Com) (z : ℤ) (c' : Com)
    → c.buffer ≡ []
    → within Com.os (λ os c. record c { os = os }) (write_all_fd (bytes buf) timeout_ms) c
      ≡ done z c'
    → Sent buf c z c'
direct_write-Sent buf timeout_ms c z c' clear e =
    let w = write_all_fd-Written buf timeout_ms c.os z c'.os (on_os-done _ c z c' e) in
    let kept : c'.buffer ≡ [] = (on_os_others _ c z c' e).0 ∙ clear in
    record {
      sent = w.sent;
      unsent = w.unsent;
      splits = w.splits;
      added =
          rw (kept, clear)
            (append-nil c'.os.output
              ∙ w.output
              ∙ ap (λ t. t ++ w.sent) (sym (append-nil c.os.output)));
      ends = w.ends;
    }

-- A call of the descriptor's `send` that returns has added a first part of its bytes to the stream:
-- all of them if it returns their count. In the normal mode this needs an empty send buffer.
pub usb_send-Sent :
    (d : Descriptor) (buf : List ℕ) (c : Com) (z : ℤ) (c' : Com)
    → (c.mode ≡ buffered) ⊎ (c.buffer ≡ [])
    → usb_send d (bytes buf) c ≡ done z c'
    → Sent buf c z c'
unfolding usb_send
usb_send-Sent d buf c z c' (inl mode) e =
    buffered_write-Sent buf c z c' (rw (ap is_buffered mode) at e)
usb_send-Sent d buf c z c' (inr clear) e = elim (Bool-cases (is_buffered c.mode)) [
  | inl mode ↦ buffered_write-Sent buf c z c' (rw mode at e)
  | inr mode ↦ elim (Bool-cases (is_neg (get_usb_fd (some d)))) [
    | inl unusable ↦ Sent-nothing buf c (neg einval) z c' refl (rw (mode, unusable) at e)
    | inr usable ↦ direct_write-Sent buf d.io_timeout_ms c z c' clear (rw (mode, usable) at e)
  ]
]

-- A first part of the send buffer was written: all of it, and the buffer was emptied, or an error
-- came back, and the buffer is what it was.
pub record Flushed (c : Com) (z : ℤ) (c' : Com) : Type 0 where
  pub sent : List ℕ
  pub unsent : List ℕ
  pub splits : c.buffer ≡ sent ++ unsent
  pub output : c'.os.output ≡ c.os.output ++ sent
  pub ends :
      ((is_neg z ≡ false) × (unsent ≡ []) × (c'.buffer ≡ []))
      ⊎ ((is_neg z ≡ true) × (c'.buffer ≡ c.buffer))

nothing_left :
    {buf : List ℕ} {n : ℕ} {os os' : Os} {z : ℤ}
    → (w : Written buf n os z os') → is_neg z ≡ false
    → w.unsent ≡ []
nothing_left w passed = elim w.ends [ inl (_, all) ↦ all | inr failed ↦ cc ]

after_flush-Flushed :
    (o : Outcome Os ℤ) (c : Com) (z : ℤ) (c' : Com)
    → ((w : ℤ) (os : Os) → o ≡ done w os → Written c.buffer (length c.buffer) c.os w os)
    → after_flush o c ≡ done z c'
    → Flushed c z c'
after_flush-Flushed (done w os) c z c' written e = elim (Bool-cases (is_neg w)) [
  | inl failed ↦
      let same : done w (record c { os = os }) ≡ done z c' = rw failed at e in
      let all = written w os refl in
      record {
        sent = all.sent;
        unsent = all.unsent;
        splits = all.splits;
        output = ap (λ c. c.os.output) (sym (done-state same)) ∙ all.output;
        ends = inr (rw (sym (done-result same)) failed, ap (λ c. c.buffer) (sym (done-state same)));
      }
  | inr passed ↦
      let same : done w (record c { os = os; buffer = [] }) ≡ done z c' = rw passed at e in
      let all = written w os refl in
      record {
        sent = all.sent;
        unsent = all.unsent;
        splits = all.splits;
        output = ap (λ c. c.os.output) (sym (done-state same)) ∙ all.output;
        ends = inl (
          rw (sym (done-result same)) passed,
          nothing_left all passed,
          ap (λ c. c.buffer) (sym (done-state same)),
        );
      }
]
after_flush-Flushed blocked c z c' written e = cc
after_flush-Flushed fault c z c' written e = cc

-- `flush_buffer_locked`, whatever it returns, has written a first part of the send buffer: all of it,
-- emptying the buffer, or it returns an error and keeps the whole buffer.
pub flush_buffer_locked-Flushed :
    (d : Option Descriptor) (c : Com) (z : ℤ) (c' : Com)
    → flush_buffer_locked d c ≡ done z c'
    → Flushed c z c'
unfolding flush_buffer_locked
flush_buffer_locked-Flushed d c z c' e = elim (Bool-cases (length c.buffer == 0)) [
  | inl empty ↦
      let clear : c.buffer ≡ [] = length-zero c.buffer ((==_iff _ 0).0 empty) in
      let same : done (pos 0) c ≡ done z c' = rw empty at e in
      record {
        sent = [];
        unsent = [];
        splits = clear;
        output = ap (λ c. c.os.output) (sym (done-state same)) ∙ sym (append-nil c.os.output);
        ends = inl (
          ap is_neg (sym (done-result same)),
          refl,
          ap (λ c. c.buffer) (sym (done-state same)) ∙ clear,
        );
      }
  | inr full ↦ elim (Bool-cases (is_neg (get_usb_fd d))) [
    | inl unusable ↦
        let same : done (neg einval) c ≡ done z c' = rw (full, unusable) at e in
        record {
          sent = [];
          unsent = c.buffer;
          splits = refl;
          output = ap (λ c. c.os.output) (sym (done-state same)) ∙ sym (append-nil c.os.output);
          ends =
              inr (ap is_neg (sym (done-result same)), ap (λ c. c.buffer) (sym (done-state same)));
        }
    | inr usable ↦
        after_flush-Flushed _ c z c'
          (λ w os. write_all_fd-Written c.buffer (timeout_of d) c.os w os) (rw (full, usable) at e)
  ]
]

-- After a flush that failed part of the way, the next flush that succeeds gives the device the bytes
-- that it already has once more, before the others.
pub flush_retry_duplicates :
    (d : Option Descriptor) (c : Com) (z : ℤ) (mid : Com) (w : ℤ) (c' : Com)
    → flush_buffer_locked d c ≡ done z mid
    → is_neg z ≡ true
    → flush_buffer_locked d mid ≡ done w c'
    → is_neg w ≡ false
    → (sent unsent : List ℕ) × (c.buffer ≡ sent ++ unsent)
      × (mid.os.output ≡ c.os.output ++ sent)
      × (c'.os.output ≡ c.os.output ++ sent ++ (sent ++ unsent))
flush_retry_duplicates d c z mid w c' first failed second passed =
    let one = flush_buffer_locked-Flushed d c z mid first in
    let two = flush_buffer_locked-Flushed d mid w c' second in
    let kept : mid.buffer ≡ c.buffer = elim one.ends [ inl p ↦ cc | inr p ↦ p.1 ] in
    let all : two.unsent ≡ [] = elim two.ends [ inl p ↦ p.1 | inr p ↦ cc ] in
    let again : two.sent ≡ one.sent ++ one.unsent =
      sym (append-nil two.sent)
      ∙ ap (λ t. two.sent ++ t) (sym all)
      ∙ sym two.splits
      ∙ kept
      ∙ one.splits in
    (
      one.sent,
      one.unsent,
      one.splits,
      one.output,
      two.output
          ∙ ap (λ t. t ++ two.sent) one.output
          ∙ ap (λ t. c.os.output ++ one.sent ++ t) again,
    )
