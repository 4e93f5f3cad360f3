-- ===== src/Common/Lists.antt =====
-- Lists measured and indexed by native numbers, under the library's names.
use Prim.Native.Nat.{ℕ, zero, suc, ◌+◌, ◌≤◌, ◌<◌}
use mathlib.Core.Path.{◌≡◌, refl, ap}
use mathlib.Core.Logic.{◌⊎◌, inl, inr}
use mathlib.Core.Bool.{Bool}
use mathlib.Core.List.{List, [], ◌∷◌, ◌++◌}
use mathlib.Core.Option.{Option, none, some}
use native.Mathlib.Omega.{arith}
use shigoku.Common.Tests.{if◌then◌else◌}

module _ {ℓ} {A : Type ℓ} where
  abbrev pub length : List A → ℕ
  length [] = 0
  length (x ∷ xs) = suc (length xs)

  abbrev pub get_elem? : List A → ℕ → Option A
  get_elem? [] i = none
  get_elem? (x ∷ xs) zero = some x
  get_elem? (x ∷ xs) (suc i) = get_elem? xs i

  abbrev pub take : ℕ → List A → List A
  take zero xs = []
  take (suc n) [] = []
  take (suc n) (x ∷ xs) = x ∷ take n xs

  abbrev pub drop : ℕ → List A → List A
  drop zero xs = xs
  drop (suc n) [] = []
  drop (suc n) (x ∷ xs) = drop n xs

  pub length-append : (xs ys : List A) → length (xs ++ ys) ≡ length xs + length ys
  length-append [] ys = omega arith
  length-append (x ∷ xs) ys = omega (arith, length-append xs ys)

  -- `std::copy_if`, and the complement of `std::remove_if`.
  unfoldable pub keep_if : (A → Bool) → List A → List A
  keep_if p [] = []
  keep_if p (x ∷ xs) = if p x then x ∷ keep_if p xs else keep_if p xs

  pub length-keep_if-le : (p : A → Bool) (xs : List A) → length (keep_if p xs) ≤ length xs
  unfolding keep_if
  length-keep_if-le p [] = omega arith
  length-keep_if-le p (x ∷ xs) = ground (arith, length-keep_if-le p xs)

-- A predicate on every entry.
abbrev pub All {ℓ κ} : {A : Type ℓ} → (A → Type κ) → List A → Type κ
All P [] = Unit
All P (x ∷ xs) = P x × All P xs

pub All-append {ℓ κ} :
    {A : Type ℓ} (P : A → Type κ) (xs ys : List A) → All P xs → All P ys → All P (xs ++ ys)
All-append P [] ys hx hy = hy
All-append P (x ∷ xs) ys hx hy = (hx.0, All-append P xs ys hx.1 hy)

module _ {ℓ} {A : Type ℓ} where
  pub get_elem?-append_left :
      (xs ys : List A) (j : ℕ) (t : A) → get_elem? xs j ≡ some t → get_elem? (xs ++ ys) j ≡ some t
  get_elem?-append_left [] ys j t h = absurd (cc)
  get_elem?-append_left (x ∷ xs) ys zero t h = h
  get_elem?-append_left (x ∷ xs) ys (suc j) t h = get_elem?-append_left xs ys j t h

  pub get_elem?-snoc : (xs : List A) (x : A) → get_elem? (xs ++ x ∷ []) (length xs) ≡ some x
  get_elem?-snoc [] x = refl
  get_elem?-snoc (y ∷ xs) x = get_elem?-snoc xs x

  -- An entry of a list with one more at the end is an entry of the list, or the one at the end.
  pub snoc-cases :
      (xs : List A) (x : A) (j : ℕ) (t : A)
      → get_elem? (xs ++ x ∷ []) j ≡ some t
      → (get_elem? xs j ≡ some t) ⊎ ((j ≡ length xs) × (x ≡ t))
  snoc-cases [] x zero t h = inr (refl, ground arith)
  snoc-cases [] x (suc j) t h = absurd (cc)
  snoc-cases (y ∷ xs) x zero t h = inl h
  snoc-cases (y ∷ xs) x (suc j) t h = elim (snoc-cases xs x j t h) [
    | inl k ↦ inl k
    | inr (e, f) ↦ inr (ap suc e, f)
  ]

  pub length-snoc : (xs : List A) (x : A) → length (xs ++ x ∷ []) ≡ suc (length xs)
  length-snoc xs x = omega (arith, length-append xs (x ∷ []))

  pub get_elem?-lt : (xs : List A) (j : ℕ) (t : A) → get_elem? xs j ≡ some t → j < length xs
  get_elem?-lt [] j t h = absurd (cc)
  get_elem?-lt (x ∷ xs) zero t h = omega arith
  get_elem?-lt (x ∷ xs) (suc j) t h = omega (arith, get_elem?-lt xs j t h)
