-- ===== src/Com/Usb/Channel.antt =====
-- The send buffer of src/raspike_com.c as a refinement of a channel: an unbounded list of the bytes
-- that were accepted. The buffer, the mode and the splitting of writes are not seen there.
use libraspike_art.Base.{
  ℕ, ◌≡◌, refl, sym, ap, ◌∙◌, ◌⊎◌, inl, inr, true, false, some, List, [], ◌∷◌, ◌++◌, append-nil,
  ltb, ◌==◌, length, ◌+◌, Bool-cases, if◌then◌else◌, ℤ, pos, negsuc, is_neg, ◌==ℤ◌, Outcome, Action,
  Ends, Ends-done, Ends-intro, within-Ends, bind-Ends, done, blocked, fault, pure, ◌>>=◌,
}
use libraspike_art.Com.Os.{Os}
use libraspike_art.Com.Fd.{bytes, write_all_fd}
use libraspike_art.Com.Usb.{
  Com, Descriptor, Mode, normal, buffered, is_buffered, after_flush, get_usb_fd, send_buffer_size,
  buffered_write, usb_send, usb_flush, usb_set_mode, com_send, com_flush, flush_buffer_locked,
}
use libraspike_art.Com.Usb.Stream.{
  stream, Sent, usb_send-Sent, Flushed, flush_buffer_locked-Flushed,
}

is_buffered_mode : (mode : Mode) → is_buffered mode ≡ true → mode ≡ buffered
is_buffered_mode buffered e = refl
is_buffered_mode normal e = cc

-- What a user of the file does with an open line.
pub data Operation : Type 0 where
  sends : List ℕ → Operation
  flushes : Operation
  sets_mode : ℤ → Operation

-- The call that it stands for.
abbrev pub perform : Descriptor → Operation → Action Com ℤ
perform d (sends buf) = com_send (some d) (bytes buf)
perform d flushes = com_flush (some d)
perform d (sets_mode mode) = usb_set_mode mode >>= λ _. pure (pos 0)

-- The channel only takes the bytes of a send.
abbrev pub accept : Operation → List ℕ → List ℕ
accept (sends buf) accepted = accepted ++ buf
accept flushes accepted = accepted
accept (sets_mode mode) accepted = accepted

abbrev pub accept_all : List Operation → List ℕ → List ℕ
accept_all [] accepted = accepted
accept_all (op ∷ ops) accepted = accept_all ops (accept op accepted)

-- The bytes that wait belong to the buffered mode.
abbrev pub Clear : Com → Type 0
Clear c = (c.mode ≡ buffered) ⊎ (c.buffer ≡ [])

-- The buffered mode is left with an empty buffer only.
abbrev pub Allowed : Operation → Com → Type 0
Allowed (sends buf) c = Unit {0}
Allowed flushes c = Unit {0}
Allowed (sets_mode mode) c = ((mode ==ℤ pos 1) ≡ true) ⊎ (c.buffer ≡ [])

-- A run of operations that all succeed.
pub data Runs (d : Descriptor) : List Operation → Com → Com → Type 0 where
  stop : {c : Com} → Runs d [] c c
  next :
      {op : Operation} {ops : List Operation} {c c' c'' : Com} (z : ℤ)
      → Allowed op c
      → perform d op c ≡ done z c'
      → is_neg z ≡ false
      → Runs d ops c' c''
      → Runs d (op ∷ ops) c c''

-- A send, a flush or a change of the mode.
module _ (d : Descriptor) where
  abbrev Clears : ℤ → Com → Type 0
  Clears z c = Clear c

  send-Clear : (buf : List ℕ) (c : Com) → Clear c → Ends Clears (usb_send d (bytes buf) c)
  unfolding usb_send buffered_write
  send-Clear buf c h = elim (Bool-cases (is_buffered c.mode)) [
    | inl e ↦ elim (Bool-cases (ltb send_buffer_size (length buf))) [
      | inl long ↦ rw (e, long) h
      | inr short ↦ elim (Bool-cases (ltb send_buffer_size (length c.buffer + length buf))) [
        | inl full ↦ rw (e, short, full) h
        | inr fits ↦ rw (e, short, fits) (inl (is_buffered_mode c.mode e))
      ]
    ]
    | inr e ↦ elim (Bool-cases (is_neg (get_usb_fd (some d)))) [
      | inl unusable ↦ rw (e, unusable) h
      | inr usable ↦
          rw (e, usable)
            (within-Ends Clears (write_all_fd (bytes buf) d.io_timeout_ms c.os)
              (λ os c. record c { os = os }) c (λ a os. h))
    ]
  ]

  after-Clear : (o : Outcome Os ℤ) (c : Com) → Clear c → Ends Clears (after_flush o c)
  after-Clear (done ret os) c h = elim (Bool-cases (is_neg ret)) [
    | inl failed ↦ rw failed h
    | inr passed ↦ rw passed (inr refl)
  ]
  after-Clear blocked c h = tt
  after-Clear fault c h = tt

  flush-Clear : (c : Com) → Clear c → Ends Clears (flush_buffer_locked (some d) c)
  unfolding flush_buffer_locked
  flush-Clear c h = elim (Bool-cases (length c.buffer == 0)) [
    | inl empty ↦ rw empty h
    | inr full ↦ elim (Bool-cases (is_neg (get_usb_fd (some d)))) [
      | inl unusable ↦ rw (full, unusable) h
      | inr usable ↦
          rw (full, usable) (after-Clear (write_all_fd (bytes c.buffer) d.io_timeout_ms c.os) c h)
    ]
  ]

-- The result and the state after an operation that succeeds, beside the channel.
abbrev pub Refines : Operation → Com → ℤ → Com → Type 0
Refines op c z c' = Clear c' × (is_neg z ≡ false → stream c' ≡ accept op (stream c))

-- All of a buffer that is split into a part that was taken and nothing else.
pub taken_whole : (buf sent unsent : List ℕ) → buf ≡ sent ++ unsent → unsent ≡ [] → sent ≡ buf
taken_whole buf sent unsent splits nothing =
    sym (append-nil sent) ∙ ap (λ t. sent ++ t) (sym nothing) ∙ sym splits

all-Sent :
    (buf : List ℕ) (c : Com) (z : ℤ) (c' : Com)
    → Sent buf c z c'
    → is_neg z ≡ false
    → stream c' ≡ stream c ++ buf
all-Sent buf c z c' s passed = elim s.ends [
  | inl (counted, nothing) ↦
      s.added ∙ ap (λ t. stream c ++ t) (taken_whole buf s.sent s.unsent s.splits nothing)
  | inr failed ↦ cc
]

all-Flushed :
    (c : Com) (z : ℤ) (c' : Com) → Flushed c z c' → is_neg z ≡ false → stream c' ≡ stream c
all-Flushed c z c' f passed = elim f.ends [
  | inl (_, nothing, empty) ↦
      ap (λ t. c'.os.output ++ t) empty
      ∙ append-nil c'.os.output
      ∙ f.output
      ∙ ap (λ t. c.os.output ++ t) (taken_whole c.buffer f.sent f.unsent f.splits nothing)
  | inr (failed, _) ↦ cc
]

flushed_sign : (z : ℤ) → is_neg (if is_neg z then z else pos 0) ≡ false → is_neg z ≡ false
flushed_sign (pos n) e = refl
flushed_sign (negsuc n) e = e

module _ (d : Descriptor) where
  pub sends-Refines :
      (buf : List ℕ) (c : Com)
      → Clear c
      → Ends (Refines (sends buf) c) (com_send (some d) (bytes buf) c)
  unfolding com_send
  sends-Refines buf c h = elim (Bool-cases d.has_send) [
    | inl e ↦ rw e (
        Ends-intro (Refines (sends buf) c) _ (λ z c' eq. (
          Ends-done (Clears d) _ (send-Clear d buf c h) z c' eq,
          all-Sent buf c z c' (usb_send-Sent d buf c z c' h eq),
        )))
    | inr e ↦ rw e (h, λ passed. absurd cc)
  ]

  pub flushes-Refines : (c : Com) → Clear c → Ends (Refines flushes c) (com_flush (some d) c)
  unfolding com_flush usb_flush
  flushes-Refines c h = elim (Bool-cases d.has_flush) [
    | inl e ↦ rw e (
        bind-Ends (Refines flushes c) (Refines flushes c) (flush_buffer_locked (some d) c) _
          (Ends-intro (Refines flushes c) _ (λ z c' eq. (
            Ends-done (Clears d) _ (flush-Clear d c h) z c' eq,
            all-Flushed c z c' (flush_buffer_locked-Flushed (some d) c z c' eq),
          )))
          (λ z c' k. (k.0, λ passed. k.1 (flushed_sign z passed))))
    | inr e ↦ rw e (h, λ passed. absurd cc)
  ]

  sets_mode-Refines :
      (mode : ℤ) (c : Com)
      → Allowed (sets_mode mode) c
      → Ends (Refines (sets_mode mode) c) (perform d (sets_mode mode) c)
  unfolding usb_set_mode
  sets_mode-Refines mode c (inl e) = (inl (rw e refl), λ passed. refl)
  sets_mode-Refines mode c (inr e) = (inr e, λ passed. refl)

perform-Refines :
    (d : Descriptor) (op : Operation) (c : Com)
    → Clear c
    → Allowed op c
    → Ends (Refines op c) (perform d op c)
perform-Refines d (sends buf) c h a = sends-Refines d buf c h
perform-Refines d flushes c h a = flushes-Refines d c h
perform-Refines d (sets_mode mode) c h a = sets_mode-Refines d mode c a

-- Any sends, flushes and changes of the mode on a line, all of them successful, do to the bytes given
-- to the device and those that wait behind them what the unbounded channel does: they take the bytes
-- of the sends in their order and nothing else. No bytes may wait outside the buffered mode, neither
-- at the start nor when it is left.
pub Runs-accept_all :
    (d : Descriptor) (ops : List Operation) (c c' : Com)
    → Clear c
    → Runs d ops c c'
    → Clear c' × (stream c' ≡ accept_all ops (stream c))
Runs-accept_all d ops c c' h stop = (h, refl)
Runs-accept_all d ops c c' h (next {op = op} {ops = rest} {c' = mid} z allowed e passed more) =
    let step =
      Ends-done (Refines op c) (perform d op c) (perform-Refines d op c h allowed) z mid e in
    let (clear, same) = Runs-accept_all d rest mid c' step.0 more in
    (clear, same ∙ ap (accept_all rest) (step.1 passed))
