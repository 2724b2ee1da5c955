-- ===== src/Com/Usb/Reads.antt =====
-- The bytes that `raspike_com_receive_timeout` of src/raspike_com.c stores.
use mathlib.Core.Path.{subst}
use libraspike_art.Base.{
  ℕ, zero, suc, ◌+◌, ◌-◌, ◌<◌, ◌≡◌, refl, sym, ap, ◌∙◌, ◌⊎◌, inl, inr, true, some, List, [], ◌∷◌,
  ◌++◌, append_assoc, append-nil, length-append, ==-false, Bool-cases, length, ℤ, pos, neg, is_neg,
  Outcome, within, done, blocked, fault, ap₂, done-result, done-state, arith,
}
use libraspike_art.Base.Errno.{einval}
use libraspike_art.Com.Os.{Os, Round}
use libraspike_art.Com.Fd.{Progress, returns, goes_on, waits, tick, deadline_for}
use libraspike_art.Com.Usb.{Descriptor, Com, receive_round, receive_loop, com_receive_timeout}
use libraspike_art.Com.Usb.Rounds.{RoundOk, receive_round-RoundOk}

-- The bytes stored are those stored before and a first part of the input, which they are taken
-- from; nothing is written. The result is their count if `size` bytes are there, else an error.
pub record Received (size : ℕ) (before : List ℕ) (os : Os) (z : ℤ) (after : List ℕ) (os' : Os)
    : Type 0 where
  pub got : List ℕ
  pub stored : after ≡ before ++ got
  pub input : os.input ≡ got ++ os'.input
  pub output : os'.output ≡ os.output
  pub ends : ((z ≡ pos size) × (length after ≡ size)) ⊎ (is_neg z ≡ true)

Received-after :
    (size : ℕ) (before got : List ℕ) (os mid : Os) (z : ℤ) (after : List ℕ) (os' : Os)
    → os.input ≡ got ++ mid.input
    → mid.output ≡ os.output
    → Received size (before ++ got) mid z after os'
    → Received size before os z after os'
Received-after size before got os mid z after os' i o w = record {
  got = got ++ w.got;
  stored = w.stored ∙ append_assoc before got w.got;
  input = i ∙ ap (λ t. got ++ t) w.input ∙ sym (append_assoc got w.got os'.input);
  output = w.output ∙ o;
  ends = w.ends;
}

receive_loop-Received :
    (d : Descriptor) (script : List Round) (deadline left : ℕ) (before : List ℕ) (os : Os) (z : ℤ)
    (after : List ℕ) (os' : Os)
    → receive_loop d script deadline left before os ≡ done (z, after) os'
    → Received (length before + left) before os z after os'
unfolding receive_loop
receive_loop-Received d script deadline zero before os z after os' e = record {
  got = [];
  stored = ap (λ p. p.1) (sym (done-result e)) ∙ sym (append-nil before);
  input = ap (λ o. o.input) (done-state e);
  output = ap (λ o. o.output) (sym (done-state e));
  ends = inl (
    ap (λ p. p.0) (sym (done-result e)) ∙ ap pos (omega arith),
    omega (arith, ap (λ p. length p.1) (done-result e)),
  );
}
receive_loop-Received d [] deadline (suc left) before os z after os' e = cc
receive_loop-Received d (r ∷ script) deadline (suc left) before os z after os' e =
    step (receive_round d r deadline (suc left) (tick r script os))
      (receive_round-RoundOk d r deadline (suc left) (tick r script os)) e
      (λ got mid.
        receive_loop-Received d script deadline (suc left - length got) (before ++ got) mid z after
          os')
  where
    step :
        (p : Progress (List ℕ))
        → RoundOk (suc left) (tick r script os) p
        → ◌≡◌ {A = Outcome Os (ℤ × List ℕ)}
            (elim p [
              | returns len os' ↦ done (len, before) os'
              | goes_on got os' ↦
                  receive_loop d script deadline (suc left - length got) (before ++ got) os'
              | waits ↦ blocked
            ])
            (done (z, after) os')
        → ((got : List ℕ) (mid : Os)
            → receive_loop d script deadline (suc left - length got) (before ++ got) mid
              ≡ done (z, after) os'
            → Received
                (length (before ++ got) + (suc left - length got))
                (before ++ got)
                mid
                z
                after
                os')
        → Received (length before + suc left) before os z after os'
    step (returns len last) ok ends later = record {
      got = [];
      stored = ap (λ p. p.1) (sym (done-result ends)) ∙ sym (append-nil before);
      input = sym ok.1 ∙ ap (λ o. o.input) (done-state ends);
      output = ap (λ o. o.output) (sym (done-state ends)) ∙ ok.2;
      ends = inr (rw (ap (λ p. p.0) (sym (done-result ends))) ok.0);
    }
    step (goes_on got mid) ok ends later =
        let total : length (before ++ got) + (suc left - length got) ≡ length before + suc left =
          omega (arith, length-append before got) in
        Received-after (length before + suc left) before got os mid z after os' ok.1 ok.2
          (subst (λ n. Received n (before ++ got) mid z after os') total (later got mid ends))
    step waits ok ends later = cc

-- A call on the system's part of the state.
pub on_os-done :
    {A : Type 0} (o : Outcome Os A) (c : Com) (a : A) (c' : Com)
    → ◌≡◌ {A = Outcome Com A}
        (elim o [ done a os ↦ done a (record c { os = os }) | blocked ↦ blocked | fault ↦ fault ])
        (done a c')
    → o ≡ done a c'.os
on_os-done (done b os) c a c' e = ap₂ done (done-result e) (ap (λ c. c.os) (done-state e))
on_os-done blocked c a c' e = cc
on_os-done fault c a c' e = cc

pub on_os_others :
    {A : Type 0} (o : Outcome Os A) (c : Com) (a : A) (c' : Com)
    → ◌≡◌ {A = Outcome Com A}
        (elim o [ done a os ↦ done a (record c { os = os }) | blocked ↦ blocked | fault ↦ fault ])
        (done a c')
    → (c'.buffer ≡ c.buffer) × (c'.mode ≡ c.mode)
on_os_others (done b os) c a c' e =
    (ap (λ c. c.buffer) (sym (done-state e)), ap (λ c. c.mode) (sym (done-state e)))
on_os_others blocked c a c' e = cc
on_os_others fault c a c' e = cc

refused-Received :
    (size : ℕ) (w z : ℤ) (got : List ℕ) (c c' : Com)
    → is_neg w ≡ true
    → ◌≡◌ {A = Outcome Com (ℤ × List ℕ)} (done (w, []) c) (done (z, got) c')
    → Received size [] c.os z got c'.os
refused-Received size w z got c c' negative e = record {
  got = [];
  stored = ap (λ p. p.1) (sym (done-result e));
  input = ap (λ c. c.os.input) (done-state e);
  output = ap (λ c. c.os.output) (sym (done-state e));
  ends = inr (rw (ap (λ p. p.0) (sym (done-result e))) negative);
}

pub com_receive_timeout_runs :
    (d : Descriptor) (size timeout_ms : ℕ) (c : Com)
    → d.has_receive ≡ true
    → 0 < size
    → com_receive_timeout (some d) size timeout_ms c
      ≡ within Com.os
          (λ os c. record c { os = os })
          (receive_loop d c.os.script (deadline_for c.os.now timeout_ms) size [])
          c
unfolding com_receive_timeout
com_receive_timeout_runs d size timeout_ms c set some_bytes =
    rw (set, ==-false size 0 (omega arith))

-- When `raspike_com_receive_timeout` is called for at least one byte and returns, it has taken a
-- first part of the input, in order and with nothing lost: exactly `size` bytes if it returns `size`,
-- and otherwise it returns an error.
pub com_receive_timeout-Received :
    (d : Descriptor) (size timeout_ms : ℕ) (c : Com) (z : ℤ) (got : List ℕ) (c' : Com)
    → 0 < size
    → com_receive_timeout (some d) size timeout_ms c ≡ done (z, got) c'
    → Received size [] c.os z got c'.os
unfolding com_receive_timeout
com_receive_timeout-Received d size timeout_ms c z got c' some_bytes e =
    elim (Bool-cases d.has_receive) [
      | inl set ↦
          subst (λ n. Received n [] c.os z got c'.os) (omega arith)
            (receive_loop-Received d c.os.script (deadline_for c.os.now timeout_ms) size [] c.os z
              got c'.os
              (on_os-done _ c (z, got) c'
                (sym (com_receive_timeout_runs d size timeout_ms c set some_bytes) ∙ e)))
      | inr null ↦ refused-Received size (neg einval) z got c c' refl (rw null at e)
    ]

-- The loop on after a round that moved bytes.
pub receive_loop_goes_on :
    (d : Descriptor) (r : Round) (script : List Round) (deadline left : ℕ) (before got : List ℕ)
    (os mid : Os)
    → receive_round d r deadline (suc left) (tick r script os) ≡ goes_on got mid
    → receive_loop d (r ∷ script) deadline (suc left) before os
      ≡ receive_loop d script deadline (suc left - length got) (before ++ got) mid
unfolding receive_loop
receive_loop_goes_on d r script deadline left before got os mid e =
    ap
      (λ p. elim p as (λ _. Outcome Os (ℤ × List ℕ)) [
        | returns len os' ↦ done (len, before) os'
        | goes_on got os' ↦
            receive_loop d script deadline (suc left - length got) (before ++ got) os'
        | waits ↦ blocked
      ])
      e
