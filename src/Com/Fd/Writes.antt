-- ===== src/Com/Fd/Writes.antt =====
-- The bytes that `write_all_fd` of src/raspike_com.c writes.
use libraspike_art.Base.{
  ℕ, ◌+◌, ◌≤◌, ◌≡◌, refl, sym, ap, ◌∙◌, done-result, done-state, Option, none, some, ◌⊎◌, inl, inr,
  true, List, [], ◌∷◌, ◌++◌, append_assoc, append-nil, take-append-drop, length-drop, Bool-cases,
  length, take, drop, ℤ, pos, negsuc, is_neg, done, blocked, arith,
}
use mathlib.Core.Path.{subst, subst₂}
use libraspike_art.Com.Os.{Os, Round, Io, count, failed}
use libraspike_art.Com.Fd.{
  bytes, Progress, returns, goes_on, waits, tick, remaining_ms, not_positive, wait_fd, after_wait,
  write_fd, write_round, write_loop, write_all_fd, deadline_for,
}

-- The bytes of `rest` fall into those that were written and those that were not. All were, if the
-- result is the count `total`; otherwise the result is an error. No input was touched.
pub record Written (rest : List ℕ) (total : ℕ) (os : Os) (z : ℤ) (os' : Os) : Type 0 where
  pub sent : List ℕ
  pub unsent : List ℕ
  pub splits : rest ≡ sent ++ unsent
  pub output : os'.output ≡ os.output ++ sent
  pub input : os'.input ≡ os.input
  pub ends : ((z ≡ pos total) × (unsent ≡ [])) ⊎ (is_neg z ≡ true)

-- One round either ends the loop with an error, or moves a first part of what is left.
abbrev RoundOk : List ℕ → Os → Progress ℕ → Type 0
RoundOk rest os (returns z os') =
    (is_neg z ≡ true) × (os'.output ≡ os.output) × (os'.input ≡ os.input)
RoundOk rest os (goes_on n os') =
    (n ≤ length rest) × (os'.output ≡ os.output ++ take n rest) × (os'.input ≡ os.input)
RoundOk rest os waits = Unit

write_fd-RoundOk :
    (ios : List Io) (rest : List ℕ) (os : Os) → RoundOk rest os (write_fd ios rest os)
unfolding write_fd
write_fd-RoundOk [] rest os = tt
write_fd-RoundOk (count k ∷ ios) rest os = ground arith
write_fd-RoundOk (failed e ∷ ios) rest os = ground (arith, append-nil os.output)

after_wait-RoundOk :
    (w : Option ℤ) (rest : List ℕ) (os : Os) (next : Progress ℕ)
    → RoundOk rest os next
    → RoundOk rest os (after_wait w os next)
after_wait-RoundOk none rest os next h = tt
after_wait-RoundOk (some (pos n)) rest os next h = h
after_wait-RoundOk (some (negsuc n)) rest os next h = (refl, refl, refl)

write_round-RoundOk :
    (r : Round) (deadline : ℕ) (rest : List ℕ) (os : Os)
    → RoundOk rest os (write_round r deadline rest os)
unfolding write_round
write_round-RoundOk r deadline rest os =
    elim (Bool-cases (not_positive (remaining_ms deadline os.now))) [
      | inl late ↦ rw late ((refl, refl, refl))
      | inr early ↦
          rw early (after_wait-RoundOk (wait_fd r.polls) rest os _ (write_fd-RoundOk r.ios rest os))
    ]

-- A part of the bytes is written, and then the others.
Written-after :
    (sent rest : List ℕ) (total : ℕ) (os mid : Os) (z : ℤ) (os' : Os)
    → mid.output ≡ os.output ++ sent
    → mid.input ≡ os.input
    → Written rest total mid z os'
    → Written (sent ++ rest) total os z os'
Written-after sent rest total os mid z os' o i w = record {
  sent = sent ++ w.sent;
  unsent = w.unsent;
  splits = ap (λ t. sent ++ t) w.splits ∙ sym (append_assoc sent w.sent w.unsent);
  output = w.output ∙ ap (λ t. t ++ w.sent) o ∙ append_assoc os.output sent w.sent;
  input = w.input ∙ i;
  ends = w.ends;
}

write_loop-Written :
    (script : List Round) (deadline written : ℕ) (rest : List ℕ) (os : Os) (z : ℤ) (os' : Os)
    → write_loop script deadline written rest os ≡ done z os'
    → Written rest (written + length rest) os z os'
unfolding write_loop
write_loop-Written script deadline written [] os z os' e = record {
  sent = [];
  unsent = [];
  splits = refl;
  output = ap (λ o. o.output) (sym (done-state e)) ∙ sym (append-nil os.output);
  input = ap (λ o. o.input) (sym (done-state e));
  ends = inl (sym (done-result e) ∙ ap pos (omega arith), refl);
}
write_loop-Written [] deadline written (b ∷ rest) os z os' e = cc
write_loop-Written (r ∷ script) deadline written (b ∷ rest) os z os' e =
    step (write_round r deadline (b ∷ rest) (tick r script os))
      (write_round-RoundOk r deadline (b ∷ rest) (tick r script os)) e
      (λ len mid.
        write_loop-Written script deadline (written + len) (drop len (b ∷ rest)) mid z os')
  where
    step :
        (p : Progress ℕ)
        → RoundOk (b ∷ rest) (tick r script os) p
        → elim p [
          | returns status os' ↦ done status os'
          | goes_on len os' ↦ write_loop script deadline (written + len) (drop len (b ∷ rest)) os'
          | waits ↦ blocked
        ]
          ≡ done z os'
        → ((len : ℕ) (mid : Os)
            → write_loop script deadline (written + len) (drop len (b ∷ rest)) mid ≡ done z os'
            → Written
                (drop len (b ∷ rest))
                (written + len + length (drop len (b ∷ rest)))
                mid
                z
                os')
        → Written (b ∷ rest) (written + length (b ∷ rest)) os z os'
    step (returns status last) ok ends later =
        let (negative, output, input) = ok in
        record {
          sent = [];
          unsent = b ∷ rest;
          splits = refl;
          output = ap (λ o. o.output) (sym (done-state ends)) ∙ output ∙ sym (append-nil os.output);
          input = ap (λ o. o.input) (sym (done-state ends)) ∙ input;
          ends = inr (rw (sym (done-result ends)) negative);
        }
    step (goes_on len mid) ok ends later =
        let (short, output, input) = ok in
        let whole = take-append-drop len (b ∷ rest) in
        let w =
          Written-after (take len (b ∷ rest)) (drop len (b ∷ rest))
            (written + len + length (drop len (b ∷ rest))) os mid z os' output input
            (later len mid ends) in
        let total : written + len + length (drop len (b ∷ rest)) ≡ written + length (b ∷ rest) =
          omega (arith, length-drop len (b ∷ rest)) in
        subst₂ (λ q n. Written q n os z os') whole total w
    step waits ok ends later = cc

-- When `write_all_fd` returns, the device has been given a first part of the bytes and nothing else:
-- all of them if it returns their count, and otherwise it returns an error.
pub write_all_fd-Written :
    (buf : List ℕ) (timeout_ms : ℕ) (os : Os) (z : ℤ) (os' : Os)
    → write_all_fd (bytes buf) timeout_ms os ≡ done z os'
    → Written buf (length buf) os z os'
unfolding write_all_fd
write_all_fd-Written buf timeout_ms os z os' e =
    subst (λ n. Written buf n os z os') (omega arith)
      (write_loop-Written os.script (deadline_for os.now timeout_ms) 0 buf os z os' e)
