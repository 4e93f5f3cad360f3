-- ===== src/View.antt =====
-- src/view/pager.cpp: the kinds of file that the viewer opens, by the extension of a name.
pub mod Names
pub mod Pager
pub mod Cli
pub mod Tests
use shigoku.Common.{
  ℕ, Bool, Option, Bytes, bytes_eq, List, none, ◌==◌, some, [], codes, if◌then◌else◌, ◌⊎◌, ◌∷◌,
  ◌||◌, suc, leb, inl, map, inr, drop,
}
use shigoku.Match.Titles.{ascii_lower}

-- `find_last_of`, as the index of the last such byte.
unfoldable pub find_last : (ℕ → Bool) → Bytes → Option ℕ
find_last p [] = none
find_last p (c ∷ s) = elim (find_last p s) [
  | some i ↦ some (suc i)
  | none ↦ if p c then some 0 else none
]

abbrev pub is_path_separator : ℕ → Bool
is_path_separator c = c == 0x2F || c == 0x5C

abbrev pub is_dot : ℕ → Bool
is_dot c = c == 0x2E

abbrev after_separator : Option ℕ → ℕ
after_separator none = 0
after_separator (some i) = suc i

abbrev ext_at : Bytes → ℕ → Option ℕ → Bytes
ext_at name start none = []
ext_at name start (some dot) = if leb dot start then [] else map ascii_lower (drop dot name)

unfoldable pub lower_ext : Bytes → Bytes
unfolding find_last
lower_ext name =
    ext_at name (after_separator (find_last is_path_separator name)) (find_last is_dot name)

unfoldable pub is_image_ext : Bytes → Bool
unfolding lower_ext bytes_eq
is_image_ext name =
    let ext = lower_ext name in
    bytes_eq ext (codes ".jpg")
    || bytes_eq ext (codes ".jpeg")
    || bytes_eq ext (codes ".png")
    || bytes_eq ext (codes ".webp")

pub data SourceKind : Type 0 where
  images document archive : SourceKind

unfoldable pub kind_of : Bytes → SourceKind
unfolding lower_ext bytes_eq
kind_of name =
    let ext = lower_ext name in
    if bytes_eq ext (codes ".pdf")
      || bytes_eq ext (codes ".epub")
      || bytes_eq ext (codes ".fb2")
      || bytes_eq ext (codes ".xps")
      || bytes_eq ext (codes ".oxps")
    then document
    else if bytes_eq ext (codes ".cbz")
        || bytes_eq ext (codes ".cbr")
        || bytes_eq ext (codes ".cbt")
    then archive
    else images

pub record SourcePlan : Type 0 where
  pub kind : SourceKind
  pub path : Bytes

abbrev source_plan_of : Bytes → SourceKind → SourcePlan
source_plan_of p images = record { kind = images; path = [] }
source_plan_of p document = record { kind = document; path = p }
source_plan_of p archive = record { kind = archive; path = p }

-- The first input that is a document or an archive.
unfoldable pub first_book : List Bytes → Option Bytes
first_book [] = none
first_book (p ∷ paths) = elim (kind_of p) [
  | images ↦ first_book paths
  | document ↦ some p
  | archive ↦ some p
]

-- The plan, or the input that cannot be combined with others.
unfoldable pub classify_paths : List Bytes → SourcePlan ⊎ Bytes
classify_paths [] = inl (record { kind = images; path = [] })
classify_paths (p ∷ []) = inl (source_plan_of p (kind_of p))
classify_paths (p ∷ q ∷ paths) = elim (first_book (p ∷ q ∷ paths)) [
  | none ↦ inl (record { kind = images; path = [] })
  | some book ↦ inr book
]
