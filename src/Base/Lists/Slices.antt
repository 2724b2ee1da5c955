-- ===== src/Base/Lists/Slices.antt =====
-- What a part of a buffer is after a write into the buffer.
use Prim.Native.Nat.{ℕ, zero, suc, ◌+◌, ◌≤◌, ◌<◌}
use mathlib.Core.Path.{◌≡◌, refl, ap, ap₂, ◌∙◌}
use mathlib.Core.Logic.{◌⊎◌, inl, inr}
use mathlib.Core.List.{List, [], ◌∷◌}
use native.Mathlib.Omega.{arith}
use libraspike_art.Base.Lists.{length, get_or, set, slice, splice, length-set, length-splice}

module _ {ℓ} {A : Type ℓ} where
  pub slice-set_other :
      (xs : List A) (j : ℕ) (v : A) (i n : ℕ)
      → (j < i) ⊎ (i + n ≤ j)
      → slice i n (set xs j v) ≡ slice i n xs
  slice-set_other [] j v i n h = refl
  slice-set_other (x ∷ xs) zero v zero zero h = refl
  slice-set_other (x ∷ xs) zero v zero (suc n) (inl h) = absurd (omega arith)
  slice-set_other (x ∷ xs) zero v zero (suc n) (inr h) = absurd (omega arith)
  slice-set_other (x ∷ xs) zero v (suc i) n h = refl
  slice-set_other (x ∷ xs) (suc j) v zero zero h = refl
  slice-set_other (x ∷ xs) (suc j) v zero (suc n) (inl h) = absurd (omega arith)
  slice-set_other (x ∷ xs) (suc j) v zero (suc n) (inr h) =
      ap (λ r. x ∷ r) (slice-set_other xs j v zero n (inr (omega arith)))
  slice-set_other (x ∷ xs) (suc j) v (suc i) n (inl h) =
      slice-set_other xs j v i n (inl (omega arith))
  slice-set_other (x ∷ xs) (suc j) v (suc i) n (inr h) =
      slice-set_other xs j v i n (inr (omega arith))

  pub slice-splice_other :
      (ys xs : List A) (j i n : ℕ)
      → (j + length ys ≤ i) ⊎ (i + n ≤ j)
      → slice i n (splice j ys xs) ≡ slice i n xs
  slice-splice_other [] xs j i n h = refl
  slice-splice_other (y ∷ ys) xs j i n (inl h) =
      slice-splice_other ys (set xs j y) (suc j) i n (inl (omega arith))
      ∙ slice-set_other xs j y i n (inl (omega arith))
  slice-splice_other (y ∷ ys) xs j i n (inr h) =
      slice-splice_other ys (set xs j y) (suc j) i n (inr (omega arith))
      ∙ slice-set_other xs j y i n (inr (omega arith))

  slice-suc :
      (xs : List A) (i n : ℕ) (d : A)
      → i < length xs
      → slice i (suc n) xs ≡ get_or xs i d ∷ slice (suc i) n xs
  slice-suc [] i n d h = absurd (omega arith)
  slice-suc (x ∷ xs) zero n d h = refl
  slice-suc (x ∷ xs) (suc i) n d h = slice-suc xs i n d (omega arith)

  get_or-set : (xs : List A) (i : ℕ) (v d : A) → i < length xs → get_or (set xs i v) i d ≡ v
  get_or-set [] i v d h = absurd (omega arith)
  get_or-set (x ∷ xs) zero v d h = refl
  get_or-set (x ∷ xs) (suc i) v d h = get_or-set xs i v d (omega arith)

  get_or-splice :
      (ys xs : List A) (i j : ℕ) (d : A) → i < j → get_or (splice j ys xs) i d ≡ get_or xs i d
  get_or-splice [] xs i j d h = refl
  get_or-splice (y ∷ ys) xs i j d h =
      get_or-splice ys (set xs j y) i (suc j) d (omega arith) ∙ kept xs j i h
    where
      kept : (xs : List A) (j i : ℕ) → i < j → get_or (set xs j y) i d ≡ get_or xs i d
      kept [] j i h = refl
      kept (x ∷ xs) zero i h = absurd (omega arith)
      kept (x ∷ xs) (suc j) zero h = refl
      kept (x ∷ xs) (suc j) (suc i) h = kept xs j i (omega arith)

  pub slice-splice :
      (ys xs : List A) (i : ℕ)
      → i + length ys ≤ length xs
      → slice i (length ys) (splice i ys xs) ≡ ys
  slice-splice [] xs i h = refl
  slice-splice (y ∷ ys) xs i h =
      slice-suc (splice (suc i) ys (set xs i y)) i (length ys) y
        (omega (arith, length-splice (suc i) ys (set xs i y), length-set xs i y))
      ∙ ap₂ (λ a r. a ∷ r)
          (get_or-splice ys (set xs i y) i (suc i) y (omega arith)
            ∙ get_or-set xs i y y (omega arith))
          (slice-splice ys (set xs i y) (suc i) (omega (arith, length-set xs i y)))
