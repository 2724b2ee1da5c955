-- ===== src/Com/Usb/Ends.antt =====
-- The clock and the deadline in `raspike_com_receive_timeout` of src/raspike_com.c.
use libraspike_art.Base.{
  ℕ, zero, suc, ◌+◌, ◌-◌, ◌^◌, ◌<◌, min, ◌≡◌, inl, inr, refl, Bool-cases, some, List, [], ◌∷◌, ◌++◌,
  leb, ◌==◌, ==-false, ◌==ℤ◌, ◌||◌, length, take, ℤ, pos, negsuc, neg, is_neg, Outcome, done,
  blocked, fault, arith,
}
use libraspike_art.Base.Errno.{eintr, eagain, einval}
use libraspike_art.Com.Os.{Os, Round, Io, count, failed}
use libraspike_art.Com.Fd.{
  Progress, returns, goes_on, waits, tick, read_fd, read_some_fd, after_wait, deadline_for,
}
use libraspike_art.Com.Fd.Deadline.{
  IoEnds, Answers, LastsUntil, Advances, not_positive-late, wait_fd-some,
}
use libraspike_art.Com.Usb.{
  Com, Descriptor, get_usb_fd, usb_receive, retry, receive_round, receive_loop, com_receive_timeout,
}

-- A step does not wait, and takes no time by the clock.
abbrev Immediate : {A : Type 0} → Os → Progress A → Type 0
Immediate os (returns z os') = os'.now ≡ os.now
Immediate os (goes_on a os') = os'.now ≡ os.now
Immediate os waits = ⊥

read_fd-Immediate :
    (ios : List Io) (size : ℕ) (os : Os) → IoEnds ios → Immediate os (read_fd ios size os)
unfolding read_fd
read_fd-Immediate [] size os ends = absurd ends
read_fd-Immediate (count k ∷ ios) size os ends =
    elim (Bool-cases (length (take (min k size) os.input) == 0)) [
      | inl e ↦ rw e refl
      | inr e ↦ rw e refl
    ]
read_fd-Immediate (failed e ∷ ios) size os (inl other) = elim (Bool-cases (e == eagain)) [
  | inl f ↦ rw (==-false e eintr other, f) refl
  | inr f ↦ rw (==-false e eintr other, f) refl
]
read_fd-Immediate (failed e ∷ ios) size os (inr more) = elim (Bool-cases (e == eintr)) [
  | inl again ↦ rw again (read_fd-Immediate ios size os more)
  | inr other ↦ elim (Bool-cases (e == eagain)) [
    | inl f ↦ rw (other, f) refl
    | inr f ↦ rw (other, f) refl
  ]
]

usb_receive-Immediate :
    (d : Descriptor) (r : Round) (size : ℕ) (os : Os)
    → Answers r
    → Immediate os (usb_receive d r size os)
unfolding usb_receive read_some_fd
usb_receive-Immediate d r size os a = elim (Bool-cases (size == 0)) [
  | inl e ↦ rw e refl
  | inr e ↦ elim (Bool-cases (is_neg (get_usb_fd (some d)))) [
    | inl e' ↦ rw (e, e') refl
    | inr e' ↦ let (z, polled) = wait_fd-some r.polls a.polls in rw (e, e', polled) (decided z)
  ]
]
  where
    decided : (z : ℤ) → Immediate os (after_wait (some z) os (read_fd r.ios size os))
    decided (pos n) = read_fd-Immediate r.ios size os a.ios
    decided (negsuc n) = refl

retry-Advances :
    (p : Progress (List ℕ)) (deadline : ℕ) (os : Os)
    → os.now < deadline
    → Immediate os p
    → Advances deadline os (retry p)
unfolding retry
retry-Advances (returns z os') deadline os early h =
    elim (Bool-cases (z ==ℤ neg eagain || z ==ℤ neg eintr)) [
      | inl e ↦ rw e (h, early)
      | inr e ↦ rw e tt
    ]
retry-Advances (goes_on got os') deadline os early h = (h, early)
retry-Advances waits deadline os early h = absurd h

receive_round-Advances :
    (d : Descriptor) (r : Round) (deadline left : ℕ) (os : Os)
    → Answers r
    → os.now < deadline + 2 ^ 31
    → deadline < os.now + 2 ^ 31
    → Advances deadline os (receive_round d r deadline left os)
unfolding receive_round
receive_round-Advances d r deadline left os a h k =
    rw (not_positive-late deadline os.now h k) (elim (Bool-cases (leb deadline os.now)) [
      | inl late ↦ rw late tt
      | inr early ↦ rw early (
          retry-Advances (usb_receive d r left os) deadline os (ground arith)
            (usb_receive-Immediate d r left os a))
    ])

receive_loop-returns :
    (d : Descriptor) (script : List Round) (deadline left : ℕ) (before : List ℕ) (os : Os)
    → os.now < deadline
    → deadline < os.now + 2 ^ 31
    → LastsUntil deadline os.now script
    → (p : ℤ × List ℕ) × (os' : Os) × (receive_loop d script deadline left before os ≡ done p os')
unfolding receive_loop
receive_loop-returns d script deadline zero before os h k last =
    ((pos (length before), before), os, refl)
receive_loop-returns d [] deadline (suc left) before os h k last = absurd (omega arith)
receive_loop-returns d (r ∷ script) deadline (suc left) before os h k last =
    step (receive_round d r deadline (suc left) (tick r script os))
      (receive_round-Advances d r deadline (suc left) (tick r script os) last.0
        (omega (arith, last.0.soon)) (omega arith))
      (receive_loop-returns d script deadline)
  where
    step :
        (p : Progress (List ℕ))
        → Advances deadline (tick r script os) p
        → ((left : ℕ) (before : List ℕ) (mid : Os)
            → mid.now < deadline
            → deadline < mid.now + 2 ^ 31
            → LastsUntil deadline mid.now script
            → (p : ℤ × List ℕ) × (os' : Os) × (receive_loop d script deadline left before mid
                ≡ done p os'))
        → (q : ℤ × List ℕ) × (os' : Os) × (elim p [
          | returns len os' ↦ done (len, before) os'
          | goes_on got os' ↦
              receive_loop d script deadline (suc left - length got) (before ++ got) os'
          | waits ↦ blocked
        ]
            ≡ done q os')
    step (returns len mid) adv ih = ((len, before), mid, refl)
    step (goes_on got mid) adv ih =
        ih (suc left - length got) (before ++ got) mid (omega arith) (omega arith) (rw adv.0 last.1)
    step waits adv ih = absurd adv

on_com :
    {A : Type 0} (o : Outcome Os A) (c : Com)
    → (a : A) × (os' : Os) × (o ≡ done a os')
    → (a : A) × (c' : Com) × (elim o as (λ _. Outcome Com A) [
      | done a os ↦ done a (record c { os = os })
      | blocked ↦ blocked
      | fault ↦ fault
    ]
        ≡ done a c')
on_com o c (a, os', e) = (a, record c { os = os' }, rw e refl)

-- `raspike_com_receive_timeout` returns, for every descriptor and size and whatever its calls return,
-- if the clock reaches its deadline.
pub com_receive_timeout-returns :
    (d : Descriptor) (size timeout_ms : ℕ) (c : Com)
    → timeout_ms < 2 ^ 31
    → LastsUntil (deadline_for c.os.now timeout_ms) c.os.now c.os.script
    → (p : ℤ × List ℕ) × (c' : Com) × (com_receive_timeout (some d) size timeout_ms c ≡ done p c')
unfolding com_receive_timeout
com_receive_timeout-returns d size timeout_ms c small last = elim (Bool-cases d.has_receive) [
  | inl e ↦ elim (Bool-cases (size == 0)) [
    | inl e' ↦ ((pos 0, []), c, rw (e, e') refl)
    | inr e' ↦
        rw (e, e')
          (on_com (receive_loop d c.os.script (deadline_for c.os.now timeout_ms) size [] c.os) c (
            receive_loop-returns d c.os.script (deadline_for c.os.now timeout_ms) size [] c.os
              (ground arith) (ground arith) last))
  ]
  | inr e ↦ ((neg einval, []), c, rw e refl)
]
