-- ===== src/Resolve/Walk/Masks.antt =====
-- src/resolve.cpp, `mark` and `is_tried`: the mask of tried providers.
use shigoku.Common.{
  refl, ℕ, zero, suc, ◌+◌, ◌≤◌, ◌<◌, ◌^◌, ◌≡◌, ◌≢◌, ◌||◌, List, [], ◌∷◌, some, Bytes, bytes_eq_iff,
  arith, All, length, get_elem?, drop, ◌==◌, ◌⊎◌, true, inl, Bool-cases, inr, leb, bytes_eq,
}
use shigoku.Common.Bits.{has_bit-bit_or, has_bit-none, zero-bit_or}
use mathlib.Core.Path.{subst}
use shigoku.Resolve.Walk.{Walk, mark, mark_from, mark_tried, is_tried}

abbrev pub Distinct : List Bytes → Type 0
Distinct [] = Unit {0}
Distinct (p ∷ ps) = All (λ q. p ≢ q) ps × Distinct ps

-- Every provider of the walk has a bit of its own.
pub record IsTrackable (providers : List Bytes) : Type 0 where
  pub distinct : Distinct providers
  pub fits : length providers ≤ 64

pub All-get_elem? {ℓ κ} :
    {A : Type ℓ} (P : A → Type κ) (xs : List A) (k : ℕ) (x : A)
    → All P xs
    → get_elem? xs k ≡ some x
    → P x
All-get_elem? P [] k x h e = cc
All-get_elem? P (y ∷ xs) zero x h e = let same : y ≡ x = cc in subst P same h.0
All-get_elem? P (y ∷ xs) (suc k) x h e = All-get_elem? P xs k x h.1 e

pub get_elem?-lt {ℓ} :
    {A : Type ℓ} (xs : List A) (k : ℕ) {x : A} → get_elem? xs k ≡ some x → k < length xs
get_elem?-lt [] k e = cc
get_elem?-lt (y ∷ xs) zero e = omega arith
get_elem?-lt (y ∷ xs) (suc k) e = omega (arith, get_elem?-lt xs k e)

pub drop-cons {ℓ} :
    {A : Type ℓ} (n : ℕ) (xs : List A) {x : A} {rest : List A}
    → drop n xs ≡ x ∷ rest
    → (get_elem? xs n ≡ some x) × (drop (suc n) xs ≡ rest)
drop-cons zero [] e = ground arith
drop-cons zero (y ∷ xs) e = ground arith
drop-cons (suc n) [] e = ground arith
drop-cons (suc n) (y ∷ xs) e = drop-cons n xs e

mark_from-own :
    (i j k : ℕ) (ps : List Bytes) (p : Bytes)
    → Distinct ps
    → get_elem? ps k ≡ some p
    → i + k ≡ j
    → j < 64
    → mark_from i ps p ≡ 2 ^ j
unfolding mark_from
mark_from-own i j k [] p d e s h = cc
mark_from-own i j zero (q ∷ ps) p d e s h =
    let same : i ≡ j = omega arith in ground (arith, bytes_eq_iff q p)
mark_from-own i j (suc k) (q ∷ ps) p d e s h = ground (
  arith,
  bytes_eq_iff q p,
  All-get_elem? (λ r. q ≢ r) ps k p d.0 e,
  mark_from-own (suc i) j k ps p d.1 e,
)

-- Marking the provider at index k makes that index tried, and leaves the others as they were.
pub is_tried-mark_tried :
    (w : Walk) (k j : ℕ) (p : Bytes)
    → IsTrackable w.providers
    → get_elem? w.providers k ≡ some p
    → is_tried (mark_tried w p) j ≡ (k == j || is_tried w j)
unfolding is_tried mark_tried mark
is_tried-mark_tried w k j p t e = ground (
  arith,
  mark_from-own 0 k k w.providers p t.distinct e,
  has_bit-bit_or w.tried k j,
  get_elem?-lt w.providers k e,
)

mark_from-cases :
    (i : ℕ) (ps : List Bytes) (name : Bytes)
    → (mark_from i ps name ≡ 0)
      ⊎ ((k : ℕ) × (j : ℕ) × (i + k ≡ j)
          × (get_elem? ps k ≡ some name)
          × (mark_from i ps name ≡ 2 ^ j))
unfolding mark_from
mark_from-cases i [] name = inl refl
mark_from-cases i (p ∷ ps) name = elim (Bool-cases (leb 64 i)) [
  | inl past ↦ inl (ground arith)
  | inr below ↦ elim (Bool-cases (bytes_eq p name)) [
    | inl same ↦ inr (0, i, omega arith, ground (arith, bytes_eq_iff p name), ground arith)
    | inr other ↦ elim (mark_from-cases (suc i) ps name) [
      | inl m ↦ inl (ground arith)
      | inr (k, j, s, e, m) ↦ inr (suc k, j, omega arith, e, ground arith)
    ]
  ]
]

-- Where only the bit of `name` is set, a tried index is the index of `name`.
pub only_marked :
    (w : Walk) (j : ℕ) (name : Bytes)
    → w.tried ≡ mark w.providers name
    → is_tried w j ≡ true
    → get_elem? w.providers j ≡ some name
unfolding is_tried mark
only_marked w j name e h = elim (mark_from-cases 0 w.providers name) [
  | inl m ↦ absurd (ground (arith, has_bit-none j))
  | inr (k, i, s, at, m) ↦
      let same : k ≡ j =
        ground (arith, has_bit-bit_or 0 i j, has_bit-none j, zero-bit_or (2 ^ i)) in
      rw (← same) at
]

-- A provider whose bit was set at the start is tried.
pub marked_at_start :
    (w : Walk) (j : ℕ) (name : Bytes)
    → IsTrackable w.providers
    → w.tried ≡ mark w.providers name
    → get_elem? w.providers j ≡ some name
    → is_tried w j ≡ true
unfolding is_tried mark
marked_at_start w j name t e at = ground (
  arith,
  mark_from-own 0 j j w.providers name t.distinct at,
  has_bit-bit_or 0 j j,
  zero-bit_or (2 ^ j),
  get_elem?-lt w.providers j at,
)
