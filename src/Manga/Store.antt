-- ===== src/Manga/Store.antt =====
-- src/manga/mstore.cpp: the manga library, with the marks of the chapters that were read, and the part
-- of src/manga/mapp.cpp that marks a chapter and takes the mark back. A table is a list of rows; a
-- fault of SQLite at a statement is an argument, and so is its message where a foreign key is violated.
pub mod Undo
pub mod Shelf
pub mod Unread
use shigoku.Common.{
  ℕ, Bytes, Option, some, codes, Bool, if◌then◌else◌, true, false, none, ◌++◌, List,
}
use shigoku.Common.Int.{ℤ}
use shigoku.Common.Decimal.{to_string}
use shigoku.Store.Types.{Result, ok, err}
use shigoku.Store.Keyed.{Keyed, find, upsert, delete_where}
use shigoku.Store.Providers.{eq_edge, eq_edge_iff}

pub data MgStoreError : Type 0 where
  sqlite_error : Bytes → MgStoreError
  too_new : ℕ → ℕ → MgStoreError
  missing_schema : ℕ → MgStoreError
  invalid_schema : ℕ → MgStoreError
  incomplete : ℕ → ℕ → MgStoreError
  read_only_file : Bytes → MgStoreError

unfoldable pub mstore_error_text : MgStoreError → Bytes
mstore_error_text (sqlite_error detail) = codes "library db: " ++ detail
mstore_error_text (too_new found expected) =
    codes "library db is newer than this build (v" ++ (to_string found ++ codes ")")
mstore_error_text (missing_schema v) = codes "library db is stamped but empty"
mstore_error_text (invalid_schema found) = codes "library db has an invalid schema stamp"
mstore_error_text (incomplete found expected) =
    codes "library db migration stopped at v" ++ to_string found
mstore_error_text (read_only_file detail) = codes "library db is read-only: " ++ detail

pub record ChapterProgress : Type 0 where
  pub chapter_id : Bytes
  pub chapter : Bytes
  pub read : Bool
  pub read_at : ℤ
  pub last_page : Option ℤ

pub record ChapterRow : Type 0 where
  pub manga_id : Bytes
  pub entry : ChapterProgress

abbrev pub chapter_key : Keyed (Bytes × Bytes) ChapterRow
chapter_key = record {
  key = λ r. (r.manga_id, r.entry.chapter_id);
  eq_key = eq_edge;
  eq_key_iff = eq_edge_iff;
}

-- The ids of the table `manga`, and the table `progress`.
pub record Marks : Type 0 where
  pub known : Bytes → Bool
  pub progress : List ChapterRow

pub record InsertFaults : Type 0 where
  pub statement : Option Bytes
  pub foreign_key : Bytes

abbrev pub held_entry : Option ChapterRow → Option ChapterProgress
held_entry none = none
held_entry (some r) = some r.entry

unfoldable pub chapter_progress_row :
    Option Bytes → Bytes → Bytes → Marks → Result MgStoreError (Option ChapterProgress)
chapter_progress_row (some why) scoped chapter_id m = err (sqlite_error why)
chapter_progress_row none scoped chapter_id m =
    ok (held_entry (find chapter_key (scoped, chapter_id) m.progress))

-- An INSERT into `progress`, whose `manga_id` refers to `manga`.
unfoldable pub insert_progress :
    InsertFaults
    → ChapterRow
    → (ChapterRow → ChapterRow)
    → Marks
    → Result MgStoreError (Unit {0}) × Marks
insert_progress d fresh write m = elim d.statement [
  | some why ↦ (err (sqlite_error why), m)
  | none ↦
      if m.known fresh.manga_id
      then (ok tt, record m { progress = upsert chapter_key fresh write m.progress })
      else (err (sqlite_error d.foreign_key), m)
]

abbrev pub read_mark : Bytes → Bytes → ℤ → ChapterProgress
read_mark chapter_id chapter now = record {
  chapter_id = chapter_id;
  chapter = chapter;
  read = true;
  read_at = now;
  last_page = none;
}

abbrev pub mark_columns : Bytes → ℤ → ChapterRow → ChapterRow
mark_columns chapter now r = record r {
  entry = record r.entry { chapter = chapter; read = true; read_at = now; last_page = none };
}

unfoldable pub mark_read :
    InsertFaults → Bytes → Bytes → Bytes → ℤ → Marks → Result MgStoreError (Unit {0}) × Marks
unfolding insert_progress
mark_read d scoped chapter_id chapter now m =
    insert_progress d (record { manga_id = scoped; entry = read_mark chapter_id chapter now })
      (mark_columns chapter now) m

abbrev pub page_columns : Bytes → ℤ → ℤ → ChapterRow → ChapterRow
page_columns chapter page now r = record r {
  entry = record r.entry { chapter = chapter; read_at = now; last_page = some page };
}

unfoldable pub set_last_page :
    InsertFaults → Bytes → Bytes → Bytes → ℤ → ℤ → Marks → Result MgStoreError (Unit {0}) × Marks
unfolding insert_progress
set_last_page d scoped chapter_id chapter page now m =
    insert_progress d
      (record {
        manga_id = scoped;
        entry = record {
          chapter_id = chapter_id;
          chapter = chapter;
          read = false;
          read_at = now;
          last_page = some page;
        };
      })
      (page_columns chapter page now) m

unfoldable pub clear_progress :
    Option Bytes → Bytes → Bytes → Marks → Result MgStoreError (Unit {0}) × Marks
clear_progress (some why) scoped chapter_id m = (err (sqlite_error why), m)
clear_progress none scoped chapter_id m = (
  ok tt,
  record m {
    progress =
        delete_where
          (λ (r : ChapterRow). eq_edge (r.manga_id, r.entry.chapter_id) (scoped, chapter_id))
          m.progress;
  },
)

abbrev pub restore_columns : ChapterProgress → ChapterRow → ChapterRow
restore_columns e r = record r {
  entry = record r.entry {
    chapter = e.chapter;
    read = e.read;
    read_at = e.read_at;
    last_page = e.last_page;
  };
}

unfoldable pub restore_progress :
    InsertFaults → Bytes → ChapterProgress → Marks → Result MgStoreError (Unit {0}) × Marks
unfolding insert_progress
restore_progress d scoped row m =
    insert_progress d (record { manga_id = scoped; entry = row }) (restore_columns row) m

-- The application, with its store open: `undo` holds the row from before the mark, if it was read and there was one.
abbrev pub prior_of : Result MgStoreError (Option ChapterProgress) → Option ChapterProgress
prior_of (ok prior) = prior
prior_of (err e) = none

unfoldable pub read_to_end :
    Option Bytes → InsertFaults → Bytes → Bytes → Bytes → ℤ → Marks → Option ChapterProgress × Marks
unfolding chapter_progress_row mark_read
read_to_end look d scoped chapter_id chapter now m = (
  prior_of (chapter_progress_row look scoped chapter_id m),
  (mark_read d scoped chapter_id chapter now m).1,
)

unfoldable pub undo_read : InsertFaults → Bytes → Bytes → Option ChapterProgress → Marks → Marks
unfolding restore_progress clear_progress
undo_read d scoped chapter_id none m = (clear_progress d.statement scoped chapter_id m).1
undo_read d scoped chapter_id (some prior) m = (restore_progress d scoped prior m).1
