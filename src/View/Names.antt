-- ===== src/View/Names.antt =====
-- src/view/archive_names.cpp: the names under which the entries of a comic archive are extracted.
pub mod Fence
pub mod Dedupe
pub mod Extract
use shigoku.Match.Titles.{is_empty}
use shigoku.Common.{
  ℕ, Bool, Bytes, if◌then◌else◌, List, ltb, false, ◌==◌, ◌∷◌, Option, leb, [], keep_if, ◌||◌, ◌++◌,
  none, bytes_eq, suc, codes, some, map, take, drop, ◌&&◌,
}
use shigoku.View.{find_last, is_image_ext, is_dot}
use shigoku.Common.Decimal.{to_string}

abbrev pub is_control : ℕ → Bool
is_control c = ltb c 0x20 || c == 0x7F

unfoldable pub holds_control : Bytes → Bool
holds_control [] = false
holds_control (c ∷ s) = is_control c || holds_control s

abbrev pub to_slash : ℕ → ℕ
to_slash c = if c == 0x5C then 0x2F else c

unfoldable pub pop_back : List Bytes → List Bytes
pop_back [] = []
pop_back (s ∷ []) = []
pop_back (s ∷ t ∷ stack) = s ∷ pop_back (t ∷ stack)

unfoldable pub to_slashes : Bytes → Bytes
to_slashes [] = []
to_slashes (c ∷ s) = to_slash c ∷ to_slashes s

-- The stack after one segment of the name.
unfoldable pub visit_segment : List Bytes → Bytes → List Bytes
visit_segment stack seg =
    if is_empty seg || bytes_eq seg (codes ".")
    then stack
    else if bytes_eq seg (codes "..")
    then pop_back stack
    else stack ++ seg ∷ []

-- The walk_name over the name, with the part of the segment that is read so far.
unfoldable pub walk_name : List Bytes → Bytes → Bytes → List Bytes
walk_name stack seg [] = visit_segment stack seg
walk_name stack seg (c ∷ s) =
    walk_name (if c == 0x2F then visit_segment stack seg else stack)
      (if c == 0x2F then [] else seg ++ c ∷ []) s

-- '_' between the segments.
unfoldable pub join : List Bytes → Bytes
join [] = []
join (s ∷ []) = s
join (s ∷ t ∷ stack) = s ++ 0x5F ∷ join (t ∷ stack)

abbrev pub join_stack : List Bytes → Option Bytes
join_stack [] = none
join_stack (s ∷ stack) = some (join (s ∷ stack))

unfoldable pub sanitize_entry_name : Bytes → Option Bytes
sanitize_entry_name raw =
    if holds_control raw then none else join_stack (walk_name [] [] (to_slashes raw))

abbrev pub splice : Bytes → Bytes → Option ℕ → Bytes
splice name suffix none = name ++ suffix
splice name suffix (some dot) = take dot name ++ suffix ++ drop dot name

unfoldable pub disambiguate : Bytes → ℕ → Bytes
disambiguate name count =
    if leb count 1 then name else splice name (0x7E ∷ to_string count) (find_last is_dot name)

-- `counts`: how often each name has been seen.
unfoldable pub count_of : Bytes → List (Bytes × ℕ) → ℕ
count_of name [] = 0
count_of name ((n, c) ∷ counts) = if bytes_eq n name then c else count_of name counts

unfoldable pub dedupe_from : List (Bytes × ℕ) → List Bytes → List Bytes
dedupe_from counts [] = []
dedupe_from counts (n ∷ names) =
    let count = suc (count_of n counts) in
    disambiguate n count ∷ dedupe_from ((n, count) ∷ counts) names

unfoldable pub dedupe_names : List Bytes → List Bytes
dedupe_names names = dedupe_from [] names

unfoldable pub select_image_entries : List Bytes → List Bytes
select_image_entries names = keep_if is_image_ext names

-- An entry of an archive: the name that it has there, if any, and whether it is a regular file.
pub record Entry : Type 0 where
  pub raw : Option Bytes
  pub regular : Bool

abbrev pub sanitized : Option Bytes → Option Bytes
sanitized none = none
sanitized (some raw) = sanitize_entry_name raw

-- The name of an entry that is a page.
unfoldable pub page_name : Entry → Option Bytes
page_name e = elim (sanitized e.raw) [
  | none ↦ none
  | some name ↦ if e.regular && is_image_ext name then some name else none
]

-- The names of the files that are written, in the order of the entries.
unfoldable pub extract_from : List (Bytes × ℕ) → List Entry → List Bytes
extract_from counts [] = []
extract_from counts (e ∷ entries) = elim (page_name e) [
  | none ↦ extract_from counts entries
  | some name ↦
      let count = suc (count_of name counts) in
      disambiguate name count ∷ extract_from ((name, count) ∷ counts) entries
]

unfoldable pub extracted_names : List Entry → List Bytes
extracted_names entries = extract_from [] entries
