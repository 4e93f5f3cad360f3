-- ===== src/View/Names/Extract.antt =====
-- The files that the entries of an archive are written to.
use mathlib.Core.Path.{subst, ap}
use shigoku.View.Names.Dedupe.{disambiguate-missing, disambiguate-found, take-drop}
use shigoku.View.{find_last, is_dot}
use shigoku.Match.Titles.{is_empty}
use mathlib.Core.List.{append-nil}
use shigoku.Common.{
  List, ◌∷◌, ◌++◌, [], length, take, drop, ℕ, Bytes, All, Option, suc, ◌<◌, ◌≡◌, arith, zero, some,
  Option-cases, none, ◌+◌, inl, false, inr, All-append, codes, refl, length-append,
}
use shigoku.Common.Decimal.{IsDigit, to_string, to_string-digits, to_string-pos}
use shigoku.View.Names.{
  disambiguate, extract_from, extracted_names, page_name, count_of, Entry, sanitized,
}
use shigoku.View.Names.Fence.{IsFlat, IsPlain, sanitize_entry_name-IsFlat, bytes_eq-length}

digits-IsPlain : (s : Bytes) → All IsDigit s → All IsPlain s
digits-IsPlain [] h = tt
digits-IsPlain (c ∷ s) h = (omega arith, digits-IsPlain s h.1)

suffix-IsPlain : (count : ℕ) → All IsPlain (0x7E ∷ to_string count)
suffix-IsPlain count = (omega arith, digits-IsPlain (to_string count) (to_string-digits count))

take-IsPlain : (n : ℕ) (s : Bytes) → All IsPlain s → All IsPlain (take n s)
take-IsPlain zero s h = tt
take-IsPlain (suc n) [] h = tt
take-IsPlain (suc n) (c ∷ s) h = (h.0, take-IsPlain n s h.1)

drop-IsPlain : (n : ℕ) (s : Bytes) → All IsPlain s → All IsPlain (drop n s)
drop-IsPlain zero s h = h
drop-IsPlain (suc n) [] h = tt
drop-IsPlain (suc n) (c ∷ s) h = drop-IsPlain n s h.1

long-not_empty : (s : Bytes) → 2 < length s → is_empty s ≡ false
long-not_empty [] h = absurd (omega arith)
long-not_empty (c ∷ s) h = refl

IsFlat-pos : (name : Bytes) → IsFlat name → 0 < length name
IsFlat-pos [] h = absurd (cc (h.not_empty))
IsFlat-pos (c ∷ s) h = omega arith

sanitized-IsFlat : (raw : Option Bytes) (name : Bytes) → sanitized raw ≡ some name → IsFlat name
sanitized-IsFlat none name h = absurd (cc)
sanitized-IsFlat (some raw) name h = (sanitize_entry_name-IsFlat raw name h).0

-- A name with the mark in it is longer than "..".
marked-IsFlat :
    (front back : Bytes) (count : ℕ)
    → All IsPlain front
    → All IsPlain back
    → 0 < length front + length back
    → IsFlat (front ++ (0x7E ∷ to_string count) ++ back)
marked-IsFlat front back count h k pos =
    let long : 2 < length (front ++ (0x7E ∷ to_string count) ++ back) = omega (
      arith,
      length-append (front ++ (0x7E ∷ to_string count)) back,
      length-append front (0x7E ∷ to_string count),
      to_string-pos count,
    ) in
    record {
      plain =
          All-append IsPlain (front ++ (0x7E ∷ to_string count)) back
            (All-append IsPlain front (0x7E ∷ to_string count) h (suffix-IsPlain count)) k;
      not_empty = long-not_empty (front ++ (0x7E ∷ to_string count) ++ back) long;
      not_here =
          bytes_eq-length (front ++ (0x7E ∷ to_string count) ++ back) (codes ".") (omega arith);
      not_parent =
          bytes_eq-length (front ++ (0x7E ∷ to_string count) ++ back) (codes "..") (omega arith);
    }

disambiguate-IsFlat : (name : Bytes) (k : ℕ) → IsFlat name → IsFlat (disambiguate name (suc k))
unfolding disambiguate
disambiguate-IsFlat name zero h = h
disambiguate-IsFlat name (suc k) h = elim (Option-cases (find_last is_dot name)) [
  | inl missing ↦
      rw
        (disambiguate-missing name k missing, ← append-nil (name ++ 0x7E ∷ to_string (suc (suc k))))
        (marked-IsFlat name [] (suc (suc k)) h.plain tt (omega (arith, IsFlat-pos name h)))
  | inr (dot, found) ↦ rw (disambiguate-found name k dot found) (
      marked-IsFlat (take dot name) (drop dot name) (suc (suc k)) (take-IsPlain dot name h.plain)
        (drop-IsPlain dot name h.plain)
        (omega (
          arith,
          IsFlat-pos name h,
          ap length (take-drop dot name),
          length-append (take dot name) (drop dot name),
        )))
]

page_name-IsFlat : (e : Entry) (name : Bytes) → page_name e ≡ some name → IsFlat name
unfolding page_name
page_name-IsFlat e name h = elim (Option-cases (sanitized e.raw)) [
  | inl missing ↦ absurd (ground arith)
  | inr (flat, found) ↦
      let same : flat ≡ name = ground arith in subst IsFlat same (sanitized-IsFlat e.raw flat found)
]

extract_from-IsFlat :
    (counts : List (Bytes × ℕ)) (entries : List Entry) → All IsFlat (extract_from counts entries)
unfolding extract_from
extract_from-IsFlat counts [] = tt
extract_from-IsFlat counts (e ∷ entries) = elim (Option-cases (page_name e)) [
  | inl skipped ↦ rw (skipped, extract_from) (extract_from-IsFlat counts entries)
  | inr (name, found) ↦
      rw (found, extract_from)
        (
          disambiguate-IsFlat name (count_of name counts) (page_name-IsFlat e name found),
          extract_from-IsFlat ((name, suc (count_of name counts)) ∷ counts) entries,
        )
]

-- Whatever entries an archive has, every file that is written gets a name that names a file right
-- inside the directory of the extraction: no separator of either kind, no control byte, not empty,
-- and neither "." nor "..".
pub extracted_names-IsFlat : (entries : List Entry) → All IsFlat (extracted_names entries)
unfolding extracted_names
extracted_names-IsFlat entries = extract_from-IsFlat [] entries
