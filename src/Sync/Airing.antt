-- ===== src/Sync/Airing.antt =====
-- `refresh_airing` of src/sync.cpp: the airing dates of the calendar's shows are looked up and stamped.
pub mod Requests
pub mod Wanted
pub mod Written
use shigoku.Common.{
  ℕ, ◌+◌, ◌%◌, ◌^◌, Bool, true, false, List, [], ◌∷◌, ◌++◌, Option, none, some, if◌then◌else◌,
}
use shigoku.Common.Int.{ℤ, pos, eq_ℤ, ltb_ℤ}
use shigoku.Store.Types.{Result, ok, err, StoreError, ProviderError, AiringCandidate}
use shigoku.Store.Rows.{Table, set_next_airing}
use shigoku.Store.WorkList.{list_airing_candidates}
use shigoku.Sync.Types.{inc32}
use shigoku.Sync.Push.{contains}

-- `anilist::AiringRow`.
pub record AiringRow : Type 0 where
  pub anilist_id : ℤ
  pub mal_id : Option ℤ
  pub next_airing_at : Option ℤ
  pub next_airing_episode : Option ℕ

-- The ids to ask by, and for each MAL id its own row; of two rows with one MAL id the first counts.
pub record Asked : Type 0 where
  pub ids : List ℤ
  pub mal_ids : List ℤ
  pub row_by_mal : List (ℤ × ℤ)

unfoldable pub find_row : List (ℤ × ℤ) → ℤ → Option ℤ
find_row [] mal = none
find_row ((key, row) ∷ pairs) mal =
    let rest = find_row pairs mal in if eq_ℤ key mal then some row else rest

abbrev pub ask_mal : Option ℤ → ℤ → Asked → Asked
ask_mal none row a = a
ask_mal (some mal) row a =
    if ltb_ℤ (pos 0) mal
    then record a { mal_ids = a.mal_ids ++ mal ∷ []; row_by_mal = a.row_by_mal ++ (mal, row) ∷ [] }
    else a

unfoldable pub ask : AiringCandidate → Asked → Asked
ask c a =
    if ltb_ℤ (pos 0) c.anilist_id
    then record a { ids = a.ids ++ c.anilist_id ∷ [] }
    else ask_mal c.mal_id c.anilist_id a

unfoldable pub ask_all : List AiringCandidate → Asked → Asked
ask_all [] a = a
ask_all (c ∷ cs) a = ask_all cs (ask c a)

abbrev pub find_mal : List (ℤ × ℤ) → Option ℤ → Option ℤ
find_mal pairs none = none
find_mal pairs (some mal) = find_row pairs mal

-- The row that an answer is for, if the library asked for it.
unfoldable pub target : Asked → AiringRow → Option ℤ
target a r =
    if contains a.ids r.anilist_id then some r.anilist_id else find_mal a.row_by_mal r.mal_id

-- The table and the count of rows written, or the table with the store's error.
pub data Refreshed : Type 0 where
  wrote : Table → ℕ → Refreshed
  write_failed : Table → StoreError → Refreshed

abbrev pub stamp_with : (Table → ℕ → Refreshed) → Result StoreError Table → Table → ℕ → Refreshed
stamp_with next (ok rows') rows written = next rows' (inc32 written)
stamp_with next (err e) rows written = write_failed rows e

module _ (fault : AiringRow → Option StoreError) (a : Asked) where
  unfoldable pub stamp_all : List AiringRow → Table → ℕ → Refreshed
  stamp_all [] rows written = wrote rows written
  stamp_all (r ∷ rs) rows written = elim (target a r) [
    | none ↦ stamp_all rs rows written
    | some id ↦
        stamp_with (stamp_all rs)
          (set_next_airing (fault r) id r.next_airing_at r.next_airing_episode rows) rows written
  ]

-- `fetch` is the lookup at AniList; `listing` and `fault` are the database's answers.
unfoldable pub no_ids : Asked → Bool
no_ids a = elim a.ids [ [] ↦ elim a.mal_ids [ [] ↦ true | m ∷ ms ↦ false ] | i ∷ is ↦ false ]

abbrev pub stamp_answer :
    (AiringRow → Option StoreError)
    → Asked
    → Result ProviderError (List AiringRow)
    → Table
    → Refreshed
stamp_answer fault a (err e) rows = wrote rows 0
stamp_answer fault a (ok rs) rows = stamp_all fault a rs rows 0

unfoldable pub refresh_airing :
    (List ℤ → List ℤ → Result ProviderError (List AiringRow))
    → Option StoreError
    → (AiringRow → Option StoreError)
    → ℤ
    → Table
    → Refreshed
refresh_airing fetch listing fault now rows = elim (list_airing_candidates listing now rows) [
  | err e ↦ write_failed rows e
  | ok candidates ↦
      let a = ask_all candidates (record { ids = []; mal_ids = []; row_by_mal = [] }) in
      if no_ids a then wrote rows 0 else stamp_answer fault a (fetch a.ids a.mal_ids) rows
]
