-- ===== src/Base/Rows.antt =====
-- Tables as lists of rows: `SELECT`, `UPDATE … WHERE`, and what they have in common.
use mathlib.Core.Path.{◌≡◌, refl}
use mathlib.Core.Bool.{Bool, true, false}
use mathlib.Core.List.{List, [], ◌∷◌, ◌++◌}
use mathlib.Core.Option
use mathlib.Core.Option.{Option, none, some}
use native.Mathlib.Omega.{arith}
use capstone_nps.Base.Tests.{if◌then◌else◌}

module _ {ℓ} {A : Type ℓ} where
  -- The first row that the condition selects.
  abbrev pub first : (A → Bool) → List A → Option A
  first p [] = none
  first p (x ∷ xs) = if p x then some x else first p xs

  -- All rows that the condition selects.
  abbrev pub select : (A → Bool) → List A → List A
  select p [] = []
  select p (x ∷ xs) = let rest = select p xs in if p x then x ∷ rest else rest

  -- The rows without the first that the condition selects.
  abbrev pub remove_first : (A → Bool) → List A → List A
  remove_first p [] = []
  remove_first p (x ∷ xs) = let rest = remove_first p xs in if p x then xs else x ∷ rest

  abbrev pub update : (A → Bool) → (A → A) → List A → List A
  update p f [] = []
  update p f (x ∷ xs) = (if p x then f x else x) ∷ update p f xs

  module _ (p : A → Bool) (f : A → A) (keep : (a : A) → p (f a) ≡ p a) where
    -- The selected row is the written one.
    pub first-update : (xs : List A) → first p (update p f xs) ≡ Option.map f (first p xs)
    first-update [] = refl
    first-update (x ∷ xs) = ground (arith, keep x, first-update xs)

  -- A row that the write does not select is what it was.
  module _ (p q : A → Bool) (f : A → A) where
    pub first-update_other :
        ((a : A) → p a ≡ true → q a ≡ false)
        → ((a : A) → p a ≡ true → q (f a) ≡ false)
        → (xs : List A) → first q (update p f xs) ≡ first q xs
    first-update_other h k [] = refl
    first-update_other h k (x ∷ xs) = ground (arith, h x, k x, first-update_other h k xs)

  pub first-append_some :
      (p : A → Bool) (xs ys : List A) (a : A) → first p xs ≡ some a → first p (xs ++ ys) ≡ some a
  first-append_some p [] ys a h = cc
  first-append_some p (x ∷ xs) ys a h = ground (arith, first-append_some p xs ys a)

  pub first-append_none :
      (p : A → Bool) (xs ys : List A) → first p xs ≡ none → first p (xs ++ ys) ≡ first p ys
  first-append_none p [] ys h = refl
  first-append_none p (x ∷ xs) ys h = ground (arith, first-append_none p xs ys)

  pub first_selected : (p : A → Bool) (xs : List A) (a : A) → first p xs ≡ some a → p a ≡ true
  first_selected p [] a h = cc
  first_selected p (x ∷ xs) a h = ground (arith, first_selected p xs a)

  pub select_hit :
      (p : A → Bool) (x : A) (xs : List A) → p x ≡ true → select p (x ∷ xs) ≡ x ∷ select p xs
  select_hit p x xs h = rw h

  pub select_miss :
      (p : A → Bool) (x : A) (xs : List A) → p x ≡ false → select p (x ∷ xs) ≡ select p xs
  select_miss p x xs h = rw h
