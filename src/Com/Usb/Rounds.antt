-- ===== src/Com/Usb/Rounds.antt =====
-- One round of the loop in `raspike_com_receive_timeout` of src/raspike_com.c.
use libraspike_art.Base.{
  ℕ, ◌≤◌, min, ◌≡◌, refl, inl, inr, true, Option, none, some, List, [], ◌∷◌, ◌++◌, split_at_take,
  length-take, ◌==◌, Bool-cases, length, take, ℤ, pos, negsuc, is_neg, arith,
}
use libraspike_art.Com.Os.{Os, Round, Io, count, failed}
use libraspike_art.Com.Fd.{
  Progress, returns, goes_on, waits, remaining_ms, not_positive, wait_fd, after_wait, read_fd,
  read_some_fd,
}
use libraspike_art.Com.Usb.{Descriptor, usb_receive, retry, receive_round}

abbrev pub RoundOk : ℕ → Os → Progress (List ℕ) → Type 0
RoundOk left os (returns z os') =
    (is_neg z ≡ true) × (os'.input ≡ os.input) × (os'.output ≡ os.output)
RoundOk left os (goes_on got os') =
    (length got ≤ left) × (os.input ≡ got ++ os'.input) × (os'.output ≡ os.output)
RoundOk left os waits = Unit

read_fd-RoundOk : (ios : List Io) (left : ℕ) (os : Os) → RoundOk left os (read_fd ios left os)
unfolding read_fd
read_fd-RoundOk [] left os = tt
read_fd-RoundOk (count k ∷ ios) left os =
    elim (Bool-cases (length (take (min k left) os.input) == 0)) [
      | inl empty ↦ rw empty (refl, refl, refl)
      | inr some_bytes ↦ rw some_bytes (
        omega (arith, length-take (min k left) os.input),
        split_at_take (min k left) os.input,
        refl,
      )
    ]
read_fd-RoundOk (failed e ∷ ios) left os = ground (arith, read_fd-RoundOk ios left os)

after_wait-RoundOk :
    (w : Option ℤ) (left : ℕ) (os : Os) (next : Progress (List ℕ))
    → RoundOk left os next
    → RoundOk left os (after_wait w os next)
after_wait-RoundOk none left os next h = tt
after_wait-RoundOk (some (pos n)) left os next h = h
after_wait-RoundOk (some (negsuc n)) left os next h = (refl, refl, refl)

read_some_fd-RoundOk : (r : Round) (left : ℕ) (os : Os) → RoundOk left os (read_some_fd r left os)
unfolding read_some_fd
read_some_fd-RoundOk r left os = elim (Bool-cases (left == 0)) [
  | inl empty ↦ rw empty (refl, refl, refl)
  | inr more ↦
      rw more (after_wait-RoundOk (wait_fd r.polls) left os _ (read_fd-RoundOk r.ios left os))
]

usb_receive-RoundOk :
    (d : Descriptor) (r : Round) (left : ℕ) (os : Os) → RoundOk left os (usb_receive d r left os)
unfolding usb_receive
usb_receive-RoundOk d r left os = ground (arith, read_some_fd-RoundOk r left os)

retry-RoundOk :
    (p : Progress (List ℕ)) (left : ℕ) (os : Os) → RoundOk left os p → RoundOk left os (retry p)
unfolding retry
retry-RoundOk (returns len mid) left os h = ground arith
retry-RoundOk (goes_on got mid) left os h = h
retry-RoundOk waits left os h = h

pub receive_round-RoundOk :
    (d : Descriptor) (r : Round) (deadline left : ℕ) (os : Os)
    → RoundOk left os (receive_round d r deadline left os)
unfolding receive_round
receive_round-RoundOk d r deadline left os =
    elim (Bool-cases (not_positive (remaining_ms deadline os.now))) [
      | inl late ↦ rw late (refl, refl, refl)
      | inr early ↦
          rw early
            (retry-RoundOk (usb_receive d r left os) left os (usb_receive-RoundOk d r left os))
    ]
