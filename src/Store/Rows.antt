-- ===== src/Store/Rows.antt =====
-- The `show` table of src/store.cpp, with the columns that the sync, the schedule and the status
-- writers use, and those writers. A table is a list of rows; an UPDATE rewrites the rows that its
-- WHERE selects. A status column holds the spelling of a list status, so it is a list status here.
-- `fault` is the database's answer to a statement: an error leaves the table as it was.
pub mod Laws
pub mod Marks
use shigoku.Domain.Types.{completed}
use shigoku.Common.{
  ℕ, Bool, true, false, not, ◌&&◌, List, [], ◌∷◌, Option, none, some, Bytes, if◌then◌else◌, ◌==◌,
  ltb, value_or, map,
}
use shigoku.Common.Int.{ℤ, eq_ℤ}
use shigoku.Domain.Types.{ListStatus}
use shigoku.Domain.Enums.{eq_status}
use shigoku.Store.Types.{Result, ok, err, StoreError}

pub record Row : Type 0 where
  pub anilist_id : ℤ
  pub mal_id : Option ℤ
  pub title_romaji : Bytes
  pub status : Option Bytes
  pub total_episodes : Option ℕ
  pub next_airing_at : Option ℤ
  pub next_airing_episode : Option ℕ
  pub list_status : ListStatus
  pub play_count : ℕ
  pub progress : ℕ
  pub progress_stamped_at : Option ℤ
  pub library_added_at : Option ℤ
  pub last_watched_at : Option ℤ
  pub user_score : Option ℕ
  pub synced_status : Option ListStatus
  pub synced_progress : Option ℕ
  pub synced_score : Option ℕ
  pub mal_synced_status : Option ListStatus
  pub mal_synced_progress : Option ℕ
  pub mal_synced_score : Option ℕ
  pub notice_last_episode : Option ℕ
  pub notice_pending : Bool

abbrev pub Table : Type 0
Table = List Row

-- `WHERE anilist_id = ?`.
abbrev pub has_id : ℤ → Row → Bool
has_id id r = eq_ℤ r.anilist_id id

abbrev pub update_row : (Row → Bool) → (Row → Row) → Row → Row
update_row selects write r = if selects r then write r else r

unfoldable pub update_where : (Row → Bool) → (Row → Row) → Table → Table
update_where selects write [] = []
update_where selects write (r ∷ rows) = update_row selects write r ∷ update_where selects write rows

-- A statement that the database carries out, or fails.
abbrev pub run_update :
    Option StoreError → (Row → Bool) → (Row → Row) → Table → Result StoreError Table
run_update (some e) selects write rows = err e
run_update none selects write rows = ok (update_where selects write rows)

-- COALESCE.
abbrev pub coalesce : Option ℤ → ℤ → Option ℤ
coalesce none now = some now
coalesce (some at) now = some at

unfoldable pub with_status : ListStatus → ℕ → ℤ → Row → Row
with_status status progress now r = record r {
  list_status = status;
  progress = progress;
  progress_stamped_at = if r.progress == progress then r.progress_stamped_at else some now;
  library_added_at = coalesce r.library_added_at now;
}

unfoldable pub write_list_status :
    Option StoreError → ℤ → ListStatus → ℕ → ℤ → Table → Result StoreError Table
write_list_status fault id status progress now rows =
    run_update fault (has_id id) (with_status status progress now) rows

-- `status_row`: the first row under the id.
unfoldable pub status_row : ℤ → Table → Option Row
status_row id [] = none
status_row id (r ∷ rows) = let rest = status_row id rows in if has_id id r then some r else rest

unfoldable pub new_progress : ListStatus → Row → ℕ
new_progress completed cur =
    let total = value_or cur.total_episodes 0 in if ltb 0 total then total else cur.progress
new_progress _ cur = cur.progress

-- The database's answers to the statements of one transaction. Whichever fails, it is rolled back.
pub record Faults : Type 0 where
  pub begin : Option StoreError
  pub read : Option StoreError
  pub write : Option StoreError
  pub commit : Option StoreError

abbrev pub after : Option StoreError → Result StoreError Table → Result StoreError Table
after none next = next
after (some e) next = err e

abbrev pub committed : Option StoreError → Result StoreError Table → Result StoreError Table
committed fault (err e) = err e
committed fault (ok rows) = after fault (ok rows)

unfoldable pub set_list_status : Faults → ℤ → ListStatus → ℤ → Table → Result StoreError Table
set_list_status faults id status now rows = after faults.begin (
    after faults.read (elim (status_row id rows) [
      | none ↦ ok rows
      | some cur ↦
          committed faults.commit
            (write_list_status faults.write id status (new_progress status cur) now rows)
    ]))

unfoldable pub restore_list_status :
    Option StoreError → ℤ → ListStatus → ℕ → ℤ → Table → Result StoreError Table
restore_list_status fault id status progress now rows =
    write_list_status fault id status progress now rows

pub set_user_score : Option StoreError → ℤ → Option ℕ → Table → Result StoreError Table
set_user_score fault id score rows =
    run_update fault (has_id id) (λ r. record r { user_score = score }) rows

unfoldable pub set_next_airing :
    Option StoreError → ℤ → Option ℤ → Option ℕ → Table → Result StoreError Table
set_next_airing fault id at episode rows =
    run_update fault (has_id id)
      (λ r. record r { next_airing_at = at; next_airing_episode = episode }) rows

unfoldable pub set_schedule_notice : Option StoreError → ℤ → ℕ → Table → Result StoreError Table
set_schedule_notice fault id episode rows =
    run_update fault (has_id id)
      (λ r. record r { notice_last_episode = some episode; notice_pending = true }) rows

unfoldable pub seed_schedule_notice : Option StoreError → ℤ → ℕ → Table → Result StoreError Table
seed_schedule_notice fault id episode rows =
    run_update fault (has_id id) (λ r. record r { notice_last_episode = some episode }) rows

unfoldable pub clear_notice_pending : Option StoreError → ℤ → Table → Result StoreError Table
clear_notice_pending fault id rows =
    run_update fault (has_id id) (λ r. record r { notice_pending = false }) rows

-- `IFNULL(user_score, 0)`.
abbrev pub score_of : Row → ℕ
score_of r = value_or r.user_score 0

-- `mark_synced`: the new snapshot, and the local score where it is still the one that was pushed.
abbrev pub adopted : ℕ → Option ℕ → Row → Option ℕ
adopted score none r = r.user_score
adopted score (some raw) r = if score_of r == raw then some score else r.user_score

unfoldable pub with_snapshot : ListStatus → ℕ → ℕ → Option ℕ → Row → Row
with_snapshot status progress score adopt_from_raw r = record r {
  synced_status = some status;
  synced_progress = some progress;
  synced_score = some score;
  user_score = adopted score adopt_from_raw r;
}

unfoldable pub mark_synced :
    Option StoreError → ℤ → ListStatus → ℕ → ℕ → Option ℕ → Table → Result StoreError Table
mark_synced fault id status progress score adopt_from_raw rows =
    run_update fault (has_id id) (with_snapshot status progress score adopt_from_raw) rows

unfoldable pub with_mal_snapshot : ListStatus → ℕ → Option ℕ → Row → Row
with_mal_snapshot status progress score r = record r {
  mal_synced_status = some status;
  mal_synced_progress = some progress;
  mal_synced_score = score;
}

unfoldable pub mark_mal_synced :
    Option StoreError → ℤ → ListStatus → ℕ → Option ℕ → Table → Result StoreError Table
mark_mal_synced fault id status progress score rows =
    run_update fault (has_id id) (with_mal_snapshot status progress score) rows
