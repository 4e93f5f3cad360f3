-- ===== src/Match/Titles.antt =====
-- src/resolver.cpp: titles in normal form, and how well two of them agree.
use shigoku.Common.{
  ℕ, ◌+◌, Bool, true, false, ◌&&◌, ◌||◌, List, [], ◌∷◌, ◌++◌, Option, none, some, Bytes, codes,
  bytes_eq, if◌then◌else◌, leb, ltb, split_text, starts_with, contains_text,
}
use shigoku.Common.Int.{ℤ, pos, negsuc}

abbrev pub ascii_lower : ℕ → ℕ
ascii_lower c = if leb 0x41 c && leb c 0x5A then c + 0x20 else c

abbrev pub ascii_digit : ℕ → Bool
ascii_digit c = leb 0x30 c && leb c 0x39

abbrev pub ascii_alnum : ℕ → Bool
ascii_alnum c = ascii_digit c || (leb 0x61 c && leb c 0x7A) || (leb 0x41 c && leb c 0x5A)

-- ASCII letters and digits in lower case, and every byte that is not ASCII.
unfoldable pub normalize_title : Bytes → Bytes
normalize_title [] = []
normalize_title (c ∷ s) =
    let rest = normalize_title s in
    if ltb c 0x80 then (if ascii_alnum c then ascii_lower c ∷ rest else rest) else c ∷ rest

-- The digits in front, and what is after them.
unfoldable pub take_digits : Bytes → Bytes × Bytes
take_digits [] = ([], [])
take_digits (c ∷ s) =
    let rest = take_digits s in if ascii_digit c then (c ∷ rest.0, rest.1) else ([], c ∷ s)

pub all_digits : Bytes → Bool
all_digits [] = true
all_digits (c ∷ s) = let rest = all_digits s in if ascii_digit c then rest else false

-- The text before the longest run of digits at the end, and that run.
pub trailing_digits : Bytes → Bytes × Bytes
unfolding all_digits
trailing_digits [] = ([], [])
trailing_digits (c ∷ s) =
    let rest = trailing_digits s in if all_digits (c ∷ s) then ([], c ∷ s) else (c ∷ rest.0, rest.1)

-- The text without a suffix.
pub drop_suffix : Bytes → Bytes → Option Bytes
drop_suffix suffix [] = if bytes_eq [] suffix then some [] else none
drop_suffix suffix (c ∷ s) =
    let rest = drop_suffix suffix s in
    if bytes_eq (c ∷ s) suffix then some [] else elim rest [ some t ↦ some (c ∷ t) | none ↦ none ]

-- At most one ordinal is taken off.
drop_ordinal : List Bytes → Bytes → Bytes
unfolding drop_suffix
drop_ordinal [] s = s
drop_ordinal (o ∷ ordinals) s = elim (drop_suffix o s) [
  | some t ↦ t
  | none ↦ drop_ordinal ordinals s
]

abbrev ordinals : List Bytes
ordinals = codes "st" ∷ codes "nd" ∷ codes "rd" ∷ codes "th" ∷ []

-- "2ndseason": digits, with an ordinal, right before the keyword.
abbrev before_keyword : Bytes → Bytes → Bytes × Bytes → Bytes
before_keyword s after (base, []) = s
before_keyword s after (base, n ∷ num) = base ++ 0x73 ∷ (n ∷ num) ++ after

-- "season2": digits right after the keyword.
abbrev after_keyword : Bytes → Bytes → Bytes → Bytes × Bytes → Bytes
after_keyword s before after ([], tail) =
    before_keyword s after (trailing_digits (drop_ordinal ordinals before))
after_keyword s before after (n ∷ num, tail) = before ++ 0x73 ∷ (n ∷ num) ++ tail

unfoldable pub canon_season : Bytes → Bytes
unfolding drop_ordinal trailing_digits take_digits
canon_season s = elim (split_text (codes "season") s) [
  | none ↦ s
  | some (before, after) ↦ after_keyword s before after (take_digits after)
]

-- -5000: the titles do not overlap.
abbrev pub no_overlap : ℤ
no_overlap = negsuc 4999

abbrev pub is_empty : Bytes → Bool
is_empty [] = true
is_empty (c ∷ s) = false

unfoldable pub score_normal : Bytes → Bytes → ℤ
score_normal na nb =
    if is_empty na || is_empty nb
    then no_overlap
    else if bytes_eq na nb
    then pos 1600
    else if starts_with na nb || starts_with nb na
    then pos 1250
    else if contains_text na nb || contains_text nb na
    then pos 900
    else no_overlap

unfoldable pub title_score : Bytes → Option Bytes → ℤ
unfolding score_normal
title_score a none = no_overlap
title_score a (some b) =
    if is_empty a || is_empty b
    then no_overlap
    else score_normal (canon_season (normalize_title a)) (canon_season (normalize_title b))
