-- ===== src/Manga/Store/Shelf.antt =====
-- src/manga/mstore.cpp: the cache of a manga's chapters, and the mark of what AniList was told.
pub mod Laws
use shigoku.Manga.Store.{MgStoreError, sqlite_error}
use shigoku.Common.{
  true, false, ℕ, Bytes, Option, List, keep_if, Bool, ◌∷◌, bytes_eq, false, if◌then◌else◌, [], ◌&&◌,
  ◌+◌, some, leb, ◌||◌, ◌%◌, not, none, ◌^◌, suc, ◌++◌, length,
}
use shigoku.Common.Int.{ℤ, pos_part, ltb_ℤ, pos}
use shigoku.Store.Types.{Result, ok, err, StoreError}
use shigoku.Store.Keyed.{delete_where}

pub record MdChapter : Type 0 where
  pub id : Bytes
  pub chapter : Bytes
  pub title : Bytes
  pub pages : ℕ
  pub lang : Bytes
  pub publish_at : Bytes

pub record CacheRow : Type 0 where
  pub manga_id : Bytes
  pub chapter : MdChapter
  pub ord : ℕ
  pub fetched_at : ℤ

-- The statements are numbered in the order in which they are sent: BEGIN, DELETE, the INSERTs, COMMIT.
-- A COMMIT that fails is not rolled back by the code: the transaction stays open, or the engine has
-- rolled it back.
pub record CacheFaults : Type 0 where
  pub fault : ℕ → Option Bytes
  pub constraint : Bytes
  pub known : Bytes → Bool
  pub stays_open : Bool

abbrev pub of_manga : Bytes → CacheRow → Bool
of_manga scoped r = bytes_eq r.manga_id scoped

-- The PRIMARY KEY is taken.
unfoldable pub is_cached : Bytes → Bytes → List CacheRow → Bool
is_cached scoped id [] = false
is_cached scoped id (r ∷ rows) =
    (bytes_eq r.manga_id scoped && bytes_eq r.chapter.id id) || is_cached scoped id rows

module _ (d : CacheFaults) (scoped : Bytes) (now : ℤ) where
  abbrev pub cache_row : MdChapter → ℕ → CacheRow
  cache_row c i = record { manga_id = scoped; chapter = c; ord = i; fetched_at = now }

  -- The INSERTs from chapter number `i`.
  unfoldable pub insert_chapters :
      ℕ → List MdChapter → List CacheRow → Result MgStoreError (List CacheRow)
  unfolding is_cached
  insert_chapters i [] rows = ok rows
  insert_chapters i (c ∷ chapters) rows = elim (d.fault (i + 2)) [
    | some why ↦ err (sqlite_error why)
    | none ↦ elim (not (d.known scoped) || is_cached scoped c.id rows) [
      | true ↦ err (sqlite_error d.constraint)
      | false ↦ insert_chapters (suc i) chapters (rows ++ cache_row c i ∷ [])
    ]
  ]

  -- COMMIT after `n` chapters, or ROLLBACK.
  unfoldable pub end_cache :
      ℕ
      → List CacheRow
      → Result MgStoreError (List CacheRow)
      → Result MgStoreError (Unit {0}) × List CacheRow
  end_cache n rows (err e) = (err e, rows)
  end_cache n rows (ok after) = elim (d.fault (n + 2)) [
    | some why ↦ (err (sqlite_error why), if d.stays_open then after else rows)
    | none ↦ (ok tt, after)
  ]

  unfoldable pub put_chapters :
      List MdChapter → List CacheRow → Result MgStoreError (Unit {0}) × List CacheRow
  unfolding insert_chapters delete_where end_cache
  put_chapters chapters rows = elim (d.fault 0) [
    | some why ↦ (err (sqlite_error why), rows)
    | none ↦ elim (d.fault 1) [
      | some why ↦ (err (sqlite_error why), rows)
      | none ↦
          end_cache (length chapters) rows
            (insert_chapters 0 chapters (delete_where (of_manga scoped) rows))
    ]
  ]

-- ORDER BY ord ASC. The readers and the one UPDATE below are as they are when the database answers.
unfoldable pub insert_ord : CacheRow → List CacheRow → List CacheRow
insert_ord r [] = r ∷ []
insert_ord r (x ∷ rows) =
    let rest = insert_ord r rows in if leb r.ord x.ord then r ∷ x ∷ rows else x ∷ rest

unfoldable pub sort_ord : List CacheRow → List CacheRow
unfolding insert_ord
sort_ord [] = []
sort_ord (r ∷ rows) = insert_ord r (sort_ord rows)

unfoldable pub chapters_of : List CacheRow → List MdChapter
chapters_of [] = []
chapters_of (r ∷ rows) = r.chapter ∷ chapters_of rows

unfoldable pub cached_chapters : Bytes → List CacheRow → List MdChapter
unfolding sort_ord chapters_of keep_if
cached_chapters scoped rows = chapters_of (sort_ord (keep_if (of_manga scoped) rows))

-- `al_synced_chapter`, over the table `manga` as its ids with that column.
unfoldable pub al_synced : Bytes → List (Bytes × ℤ) → ℕ
al_synced scoped [] = 0
al_synced scoped ((id, v) ∷ rows) =
    let rest = al_synced scoped rows in if bytes_eq id scoped then pos_part v % 2 ^ 32 else rest

unfoldable pub set_al_synced : Bytes → ℕ → List (Bytes × ℤ) → List (Bytes × ℤ)
set_al_synced scoped progress [] = []
set_al_synced scoped progress ((id, v) ∷ rows) =
    let rest = set_al_synced scoped progress rows in
    if bytes_eq id scoped
    then (id, if ltb_ℤ v (pos progress) then pos progress else v) ∷ rest
    else (id, v) ∷ rest
