-- ===== src/View/Names/Dedupe.antt =====
-- Names that are made distinct by a count, and when they are.
use shigoku.View.{find_last, is_dot}
use shigoku.Common.{
  List, ◌∷◌, ◌++◌, [], length, drop, take, Bytes, ℕ, All, ◌≡◌, suc, ◌<◌, ◌≢◌, if◌then◌else◌, arith,
  some, Option-cases, Bool-cases, leb, ◌==◌, refl, inl, ap, bytes_eq, ◌&&◌, inr, bytes_eq_sound,
  zero, bytes_eq_refl, none, false, length-append,
}
use shigoku.Common.Decimal.{decimal, to_string}
use shigoku.View.Names.{disambiguate, dedupe_names, dedupe_from, count_of, splice}

abbrev pub HasNoMark : Bytes → Type 0
HasNoMark = All (λ (c : ℕ). c ≢ 0x7E)

-- Pairwise distinct.
abbrev pub IsDistinct : List Bytes → Type 0
IsDistinct [] = Unit
IsDistinct (x ∷ xs) = All (λ (y : Bytes). x ≢ y) xs × IsDistinct xs

-- A marked name read back: the name without '~' and the digits after it, and the number there.
after_digits : Bytes → Bytes
after_digits [] = []
after_digits (c ∷ s) = let rest = after_digits s in if leb 0x30 c && leb c 0x39 then rest else c ∷ s

front_digits : Bytes → Bytes
front_digits [] = []
front_digits (c ∷ s) =
    let rest = front_digits s in if leb 0x30 c && leb c 0x39 then c ∷ rest else []

unmark : Bytes → Bytes
unfolding after_digits
unmark [] = []
unmark (c ∷ s) = if c == 0x7E then after_digits s else c ∷ unmark s

number : Bytes → ℕ
unfolding front_digits
number [] = 1
number (c ∷ s) = if c == 0x7E then decimal 0 (front_digits s) else number s

-- What follows the number: nothing, or the extension with its dot.
abbrev IsRest : Bytes → Type 0
IsRest [] = Unit
IsRest (c ∷ s) = c ≡ 0x2E

pub take-drop : (n : ℕ) (s : Bytes) → take n s ++ drop n s ≡ s
take-drop zero s = refl
take-drop (suc n) [] = refl
take-drop (suc n) (c ∷ s) = ap (λ t. c ∷ t) (take-drop n s)

pub disambiguate-missing :
    (name : Bytes) (k : ℕ)
    → find_last is_dot name ≡ none
    → disambiguate name (suc (suc k)) ≡ name ++ 0x7E ∷ to_string (suc (suc k))
unfolding disambiguate
disambiguate-missing name k h = ground arith

pub disambiguate-found :
    (name : Bytes) (k dot : ℕ)
    → find_last is_dot name ≡ some dot
    → disambiguate name (suc (suc k))
      ≡ take dot name ++ (0x7E ∷ to_string (suc (suc k))) ++ drop dot name
unfolding disambiguate
disambiguate-found name k dot h = ground arith

-- Each later name, read back, has a number above the count of its name.
abbrev IsLater : List (Bytes × ℕ) → Bytes → Type 0
IsLater counts y = count_of (unmark y) counts < number y

-- How often a name stands in a list.
abbrev pub occurrences : Bytes → List Bytes → ℕ
occurrences n [] = 0
occurrences n (m ∷ names) = if bytes_eq m n then suc (occurrences n names) else occurrences n names

-- The name as it is, or with '~' and its number before the extension.
abbrev pub numbered_name : Bytes → ℕ → Bytes
numbered_name n zero = n
numbered_name n (suc k) = splice n (0x7E ∷ to_string (suc (suc k))) (find_last is_dot n)

-- The results, one for each name: the first of a name is kept, and the copies of it are numbered from 2
-- on. `before`: the names that came before.
abbrev pub IsNumbered : List Bytes → List Bytes → List Bytes → Type 0
IsNumbered before [] [] = Unit {0}
IsNumbered before [] (m ∷ out) = ⊥
IsNumbered before (n ∷ names) [] = ⊥
IsNumbered before (n ∷ names) (m ∷ out) =
    (m ≡ numbered_name n (occurrences n before)) × IsNumbered (n ∷ before) names out

disambiguate-length : (name : Bytes) → length name < length (disambiguate name 2)
disambiguate-length name = elim (Option-cases (find_last is_dot name)) [
  | inl missing ↦
      rw (disambiguate-missing name 0 missing)
        (omega (arith, length-append name (0x7E ∷ to_string 2)))
  | inr (dot, found) ↦ rw (disambiguate-found name 0 dot found) (
      omega (
        arith,
        length-append (take dot name ++ (0x7E ∷ to_string 2)) (drop dot name),
        length-append (take dot name) (0x7E ∷ to_string 2),
        length-append (take dot name) (drop dot name),
        ap length (take-drop dot name),
      ))
]

-- Names of which one already carries the mark of another's repeat are not made distinct: the repeat
-- gets the name that is taken.
pub dedupe_names-collides :
    (name : Bytes)
    → dedupe_names (disambiguate name 2 ∷ name ∷ name ∷ [])
      ≡ disambiguate name 2 ∷ name ∷ disambiguate name 2 ∷ []
unfolding dedupe_names dedupe_from count_of
dedupe_names-collides name =
    let apart : bytes_eq (disambiguate name 2) name ≡ false =
      elim (Bool-cases (bytes_eq (disambiguate name 2) name)) [
        | inl same ↦ absurd (
            omega (
              arith,
              disambiguate-length name,
              ap length (bytes_eq_sound (disambiguate name 2) name same),
            ))
        | inr other ↦ other
      ] in
    rw (apart, bytes_eq_refl name) (unfold disambiguate in refl)
