-- ===== src/Base/Monad.antt =====
-- What a call comes to. State is passed explicitly: an action takes the state and gives an outcome.
use mathlib.Core.Path.{◌≡◌, refl, subst}
use mathlib.Core.Bool.{Bool, true, false}
use libraspike_art.Base.Tests.{if◌then◌else◌}

-- `blocked`: the call waits for the operating system, whose script says nothing more. `fault`: the
-- call reads or writes through a null pointer.
pub data Outcome (S A : Type 0) : Type 0 where
  done : A → S → Outcome S A
  blocked : Outcome S A
  fault : Outcome S A

abbrev pub Action : Type 0 → Type 0 → Type 0
Action S A = S → Outcome S A

abbrev pub pure : {S A : Type 0} → A → Action S A
pure a s = done a s

infixl 5 ◌>>=◌ ◌>>◌
abbrev pub ◌>>=◌ : {S A B : Type 0} → Action S A → (A → Action S B) → Action S B
◌>>=◌ m f s = elim (m s) [ done a s' ↦ f a s' | blocked ↦ blocked | fault ↦ fault ]

abbrev pub ◌>>◌ : {S B : Type 0} → Action S (Unit {0}) → Action S B → Action S B
m >> k = m >>= λ _. k

abbrev pub get : {S : Type 0} → Action S S
get s = done s s

abbrev pub gets : {S A : Type 0} → (S → A) → Action S A
gets f s = done (f s) s

abbrev pub modify : {S : Type 0} → (S → S) → Action S (Unit {0})
modify f s = done tt (f s)

-- The call of a function through which the code cannot return: an access through NULL.
abbrev pub crash : {S A : Type 0} → Action S A
crash s = fault

-- An action on a part of the state.
abbrev pub within : {S T A : Type 0} → (T → S) → (S → T → T) → Action S A → Action T A
within view update m t = elim (m (view t)) [
  | done a s ↦ done a (update s t)
  | blocked ↦ blocked
  | fault ↦ fault
]

module _ {S A : Type 0} {a b : A} {s t : S} where
  pub done-result : ◌≡◌ {A = Outcome S A} (done a s) (done b t) → a ≡ b
  done-result e = cc

  pub done-state : ◌≡◌ {A = Outcome S A} (done a s) (done b t) → s ≡ t
  done-state e = cc

-- What holds of the result and the state whenever a call comes to an end.
abbrev pub Ends {ℓ} : {S A : Type 0} → (A → S → Type ℓ) → Outcome S A → Type ℓ
Ends P (done a s) = P a s
Ends P blocked = Unit
Ends P fault = Unit

module _ {ℓ ℓ'} {S A B : Type 0} (P : A → S → Type ℓ) (Q : B → S → Type ℓ') where
  pub bind-Ends :
      (o : Outcome S A) (k : A → Action S B)
      → Ends P o
      → ((a : A) (s : S) → P a s → Ends Q (k a s))
      → Ends Q (elim o [ done a s ↦ k a s | blocked ↦ blocked | fault ↦ fault ])
  bind-Ends (done a s) k h next = next a s h
  bind-Ends blocked k h next = tt
  bind-Ends fault k h next = tt

module _ {ℓ} {S A : Type 0} (P : A → S → Type ℓ) where
  -- To use it on an outcome that is known.
  pub Ends-done : (o : Outcome S A) → Ends P o → (a : A) (s : S) → o ≡ done a s → P a s
  Ends-done o h a s e = subst (Ends P) e h

  pub Ends-intro : (o : Outcome S A) → ((a : A) (s : S) → o ≡ done a s → P a s) → Ends P o
  Ends-intro (done a s) h = h a s refl
  Ends-intro blocked h = tt
  Ends-intro fault h = tt

  pub Ends-trivial : (o : Outcome S A) → ((a : A) (s : S) → P a s) → Ends P o
  Ends-trivial (done a s) h = h a s
  Ends-trivial blocked h = tt
  Ends-trivial fault h = tt

module _ {ℓ} {S T A : Type 0} (Q : A → T → Type ℓ) where
  pub within-Ends :
      (o : Outcome S A) (update : S → T → T) (t : T)
      → ((a : A) (s : S) → Q a (update s t))
      → Ends Q (elim o [ done a s ↦ done a (update s t) | blocked ↦ blocked | fault ↦ fault ])
  within-Ends (done a s) update t h = h a s
  within-Ends blocked update t h = tt
  within-Ends fault update t h = tt

module _ {S A B : Type 0} where
  -- The step after a call that has come to an end.
  pub bind_done :
      (o : Outcome S A) (k : A → Action S B) (a : A) (s : S)
      → o ≡ done a s
      → ◌≡◌ {A = Outcome S B}
          (elim o [ done a s ↦ k a s | blocked ↦ blocked | fault ↦ fault ])
          (k a s)
  bind_done o k a s e = rw e refl

-- The same, and what holds if the call accesses memory through NULL: nothing is known of `bad` but
-- that, so that with `⊥` it never does.
abbrev pub Post : {S A : Type 0} → Type 0 → (A → S → Type 0) → Outcome S A → Type 0
Post bad P (done a s) = P a s
Post bad P blocked = Unit
Post bad P fault = bad

-- The call never accesses memory through NULL.
abbrev pub Calm : {S A : Type 0} → Outcome S A → Type 0
Calm (done a s) = Unit {0}
Calm blocked = Unit {0}
Calm fault = ⊥

module _ (bad : Type 0) {S A B : Type 0} (P : A → S → Type 0) (Q : B → S → Type 0) where
  pub bind-Post :
      (o : Outcome S A) (k : A → Action S B)
      → Post bad P o
      → ((a : A) (s : S) → P a s → Post bad Q (k a s))
      → Post bad Q (elim o [ done a s ↦ k a s | blocked ↦ blocked | fault ↦ fault ])
  bind-Post (done a s) k h next = next a s h
  bind-Post blocked k h next = tt
  bind-Post fault k h next = h

module _ (bad : Type 0) {S T A : Type 0} (Q : A → T → Type 0) where
  pub within-Post :
      (o : Outcome S A) (update : S → T → T) (t : T)
      → Calm o
      → ((a : A) (s : S) → Q a (update s t))
      → Post bad Q (elim o [ done a s ↦ done a (update s t) | blocked ↦ blocked | fault ↦ fault ])
  within-Post (done a s) update t c h = h a s
  within-Post blocked update t c h = tt
  within-Post fault update t c h = absurd c

-- Either branch of a test, on the outcomes or on the actions.
module _ (bad : Type 0) {S A : Type 0} (Q : A → S → Type 0) where
  pub either-Post :
      (b : Bool) (o o' : Outcome S A)
      → Post bad Q o
      → Post bad Q o'
      → Post bad Q (if b then o else o')
  either-Post true o o' h h' = h
  either-Post false o o' h h' = h'

  pub or-Post :
      (b : Bool) (m m' : Action S A) (s : S)
      → Post bad Q (m s)
      → Post bad Q (m' s)
      → Post bad Q ((if b then m else m') s)
  or-Post true m m' s h h' = h
  or-Post false m m' s h h' = h'

module _ {S A : Type 0} (P : A → S → Type 0) where
  pub Post-done :
      (bad : Type 0) (o : Outcome S A) → Post bad P o → (a : A) (s : S) → o ≡ done a s → P a s
  Post-done bad o h a s e = subst (Post bad P) e h

  pub Post-fault : (o : Outcome S A) → Post ⊥ P o → o ≡ fault → ⊥
  Post-fault o h e = subst (Post ⊥ P) e h

module _ {S A B : Type 0} where
  pub bind-Calm :
      (o : Outcome S A) (k : A → Action S B)
      → Calm o
      → ((a : A) (s : S) → Calm (k a s))
      → Calm (elim o [ done a s ↦ k a s | blocked ↦ blocked | fault ↦ fault ])
  bind-Calm (done a s) k h next = next a s
  bind-Calm blocked k h next = tt
  bind-Calm fault k h next = h

module _ {S T A : Type 0} where
  pub within-Calm :
      (o : Outcome S A) (update : S → T → T) (t : T)
      → Calm o
      → Calm (elim o as (λ _. Outcome T A) [
        | done a s ↦ done a (update s t)
        | blocked ↦ blocked
        | fault ↦ fault
      ])
  within-Calm (done a s) update t c = tt
  within-Calm blocked update t c = tt
  within-Calm fault update t c = c

module _ {S A : Type 0} where
  pub either-Calm : (b : Bool) (o o' : Outcome S A) → Calm o → Calm o' → Calm (if b then o else o')
  either-Calm true o o' h h' = h
  either-Calm false o o' h h' = h'

module _ {S T A : Type 0} where
  pub within_done :
      (o : Outcome S A) (update : S → T → T) (t : T) (a : A) (s : S)
      → o ≡ done a s
      → ◌≡◌ {A = Outcome T A}
          (elim o [ done a s ↦ done a (update s t) | blocked ↦ blocked | fault ↦ fault ])
          (done a (update s t))
  within_done o update t a s e = rw e refl
