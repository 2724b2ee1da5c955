-- ===== src/Com/Usb/Bounds.antt =====
-- The send buffer of src/raspike_com.c, an array of `RP_SEND_BUFFER_SIZE` bytes.
use libraspike_art.Base.{
  ◌+◌, ◌≤◌, ◌≡◌, Option, none, some, ltb, ltb_le, Bool-cases, inl, inr, length, length-append, ℤ,
  pos, is_neg, ◌==ℤ◌, done, Ends, within-Ends, Ends-done, arith,
}
use libraspike_art.Com.Fd.{Buf, null, bytes, write_all_fd}
use libraspike_art.Com.Usb.{
  Com, Descriptor, send_buffer_size, buf_size, get_usb_fd, is_buffered, buffered_write, usb_send,
  com_send,
}

abbrev pub Fits : Com → Type 0
Fits c = length c.buffer ≤ send_buffer_size

abbrev After : {A : Type 0} → A → Com → Type 0
After a c = Fits c

buffered_write-Fits : (buf : Buf) (c : Com) → Fits c → Ends After (buffered_write buf c)
unfolding buffered_write
buffered_write-Fits (null size) c h = elim (Bool-cases (size ==ℤ pos 0)) [
  | inl e ↦ rw e h
  | inr e ↦ rw e h
]
buffered_write-Fits (bytes buf) c h = elim (Bool-cases (ltb send_buffer_size (length buf))) [
  | inl e ↦ rw e h
  | inr e ↦ elim (Bool-cases (ltb send_buffer_size (length c.buffer + length buf))) [
    | inl e' ↦ rw (e, e') h
    | inr e' ↦
        rw (e, e')
          (omega (
            arith,
            length-append c.buffer buf,
            ltb_le send_buffer_size (length c.buffer + length buf) e',
          ))
  ]
]

usb_send-Fits : (d : Descriptor) (buf : Buf) (c : Com) → Fits c → Ends After (usb_send d buf c)
unfolding usb_send
usb_send-Fits d buf c h = elim (Bool-cases (is_neg (buf_size buf))) [
  | inl e ↦ rw e h
  | inr e ↦ elim (Bool-cases (is_buffered c.mode)) [
    | inl e' ↦ rw (e, e') (buffered_write-Fits buf c h)
    | inr e' ↦ elim (Bool-cases (is_neg (get_usb_fd (some d)))) [
      | inl f ↦ rw (e, e', f) h
      | inr f ↦
          rw (e, e', f)
            (within-Ends After (write_all_fd buf d.io_timeout_ms c.os)
              (λ os c. record c { os = os }) c (λ a os. h))
    ]
  ]
]

com_send-Fits :
    (d : Option Descriptor) (buf : Buf) (c : Com) → Fits c → Ends After (com_send d buf c)
unfolding com_send
com_send-Fits none buf c h = h
com_send-Fits (some d) buf c h = elim (Bool-cases d.has_send) [
  | inl e ↦ rw e (usb_send-Fits d buf c h)
  | inr e ↦ rw e h
]

-- A send through any descriptor, of any bytes and in either mode, keeps the send buffer within its
-- 4096 bytes.
pub com_send_bounded :
    (d : Option Descriptor) (buf : Buf) (c c' : Com) (z : ℤ)
    → length c.buffer ≤ send_buffer_size
    → com_send d buf c ≡ done z c'
    → length c'.buffer ≤ send_buffer_size
com_send_bounded d buf c c' z h e =
    Ends-done After (com_send d buf c) (com_send-Fits d buf c h) z c' e
