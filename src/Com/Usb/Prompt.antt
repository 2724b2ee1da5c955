-- ===== src/Com/Usb/Prompt.antt =====
-- `raspike_com_receive_timeout` of src/raspike_com.c on a line where the bytes are already there.
use libraspike_art.Base.{
  ℕ, suc, ◌+◌, ◌-◌, ◌^◌, ◌≤◌, ◌<◌, min, ◌≡◌, refl, ap, ◌∙◌, true, false, some, List, [], ◌∷◌, ◌++◌,
  leb, ==-false, if◌then◌else◌, length, take, drop, take-length_append, drop-length_append, ℤ, pos,
  is_neg, Outcome, done, blocked, fault, neg, arith,
}
use libraspike_art.Base.Errno.{etimedout}
use libraspike_art.Com.Os.{Os, Round, Io, count}
use libraspike_art.Com.Fd.{
  returns, goes_on, tick, remaining_ms, not_positive, wait_fd, read_fd, deadline_for,
}
use libraspike_art.Com.Fd.Deadline.{not_positive-late}
use libraspike_art.Com.Usb.{
  Descriptor, Com, get_usb_fd, usb_receive, retry, receive_round, receive_loop, com_receive_timeout,
}
use libraspike_art.Com.Usb.Reads.{com_receive_timeout_runs, receive_loop_goes_on}

-- A descriptor as `raspike_open_usb_communication` makes it.
pub record IsOpen (d : Descriptor) : Type 0 where
  pub receives : d.has_receive ≡ true
  pub usable : is_neg (get_usb_fd (some d)) ≡ false

-- The next round comes at once, `poll` reports input, and `read` may move `size` bytes.
pub record Prompt (size : ℕ) (r : Round) : Type 0 where
  pub polls : wait_fd r.polls ≡ some (pos 0)
  pub room : ℕ
  pub others : List Io
  pub ios : r.ios ≡ count room ∷ others
  pub enough : size ≤ room
  pub soon : r.elapsed < 100

-- The state after `r` was used and the input is down to `rest`.
abbrev pub taken : Round → List Round → List ℕ → Os → Os
taken r script rest os = record os { now = os.now + r.elapsed; script = script; input = rest }

leb-false : (a b : ℕ) → b < a → leb a b ≡ false
leb-false a b h = ground arith

module _ (d : Descriptor) (r : Round) (script : List Round) (b : ℕ) (bs rest : List ℕ)
    (is_open : IsOpen d) (prompt : Prompt (suc (length bs)) r) where
  read_fd_all :
      (os : Os)
      → os.input ≡ b ∷ bs ++ rest
      → read_fd r.ios (suc (length bs)) os ≡ goes_on (b ∷ bs) (record os { input = rest })
  unfolding read_fd
  read_fd_all os i =
      let whole : min prompt.room (suc (length bs)) ≡ length (b ∷ bs) =
        omega (arith, prompt.enough) in
      let got : take (min prompt.room (suc (length bs))) os.input ≡ b ∷ bs =
        rw (whole, i) (take-length_append (b ∷ bs) rest) in
      let left : drop (length (b ∷ bs)) os.input ≡ rest = rw i (drop-length_append (b ∷ bs) rest) in
      rw (prompt.ios, got, ==-false (suc (length bs)) 0 (omega arith), left)

  usb_receive_all :
      (os : Os)
      → os.input ≡ b ∷ bs ++ rest
      → usb_receive d r (suc (length bs)) os ≡ goes_on (b ∷ bs) (record os { input = rest })
  usb_receive_all os i =
      unfold usb_receive in
      rw (==-false (suc (length bs)) 0 (omega arith), is_open.usable, prompt.polls)
        (read_fd_all os i)

  receive_round_lem :
      (deadline : ℕ) (os : Os)
      → receive_round d r deadline (suc (length bs)) os ≡ (
          if not_positive (remaining_ms deadline os.now)
          then returns (neg etimedout) os
          else retry (usb_receive d r (suc (length bs)) os))
  unfolding receive_round
  receive_round_lem deadline os = refl

  receive_round_all :
      (deadline : ℕ) (os : Os)
      → os.input ≡ b ∷ bs ++ rest
      → os.now < deadline
      → deadline < os.now + 2 ^ 31
      → receive_round d r deadline (suc (length bs)) os
        ≡ goes_on (b ∷ bs) (record os { input = rest })
  receive_round_all deadline os i early near =
      receive_round_lem deadline os
      ∙ rw
          (
            not_positive-late deadline os.now (omega arith) near,
            leb-false deadline os.now early,
            usb_receive_all os i,
          )
          (unfold retry in refl)

  -- `size` bytes that are there are taken by one prompt round.
  pub com_receive_timeout_all :
      (timeout_ms : ℕ) (c : Com)
      → c.os.input ≡ b ∷ bs ++ rest
      → c.os.script ≡ r ∷ script
      → 100 ≤ timeout_ms
      → timeout_ms < 2 ^ 31
      → com_receive_timeout (some d) (suc (length bs)) timeout_ms c
        ≡ done (pos (suc (length bs)), b ∷ bs) (record c { os = taken r script rest c.os })
  com_receive_timeout_all timeout_ms c i s long short =
      com_receive_timeout_runs d (suc (length bs)) timeout_ms c is_open.receives (omega arith)
      ∙ ap
          (λ o. elim o as (λ _. Outcome Com (ℤ × List ℕ)) [
            | done a os ↦ done a (record c { os = os })
            | blocked ↦ blocked
            | fault ↦ fault
          ])
          whole_loop
    where
      deadline : ℕ
      deadline = deadline_for c.os.now timeout_ms

      os' : Os
      os' = taken r script rest c.os

      whole_loop :
          receive_loop d c.os.script deadline (suc (length bs)) [] c.os
          ≡ done (pos (suc (length bs)), b ∷ bs) os'
      whole_loop =
          ap (λ s. receive_loop d s deadline (suc (length bs)) [] c.os) s
          ∙ receive_loop_goes_on d r script deadline (length bs) [] (b ∷ bs) c.os os' (
              receive_round_all deadline (tick r script c.os) i (ground (arith, prompt.soon))
                (ground (arith, prompt.soon)))
          ∙ ap (λ n. receive_loop d script deadline n (b ∷ bs) os')
              (let e : suc (length bs) - suc (length bs) ≡ 0 = omega arith in e)
          ∙ unfold receive_loop in refl
