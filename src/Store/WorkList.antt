-- ===== src/Store/WorkList.antt =====
-- The work lists of src/store.cpp: the rows to push to AniList, those to mirror to MAL, and those
-- whose airing date is to be looked up.
pub mod Laws
use shigoku.Common.{
  ℕ, Bool, true, false, not, ◌&&◌, ◌||◌, List, [], ◌∷◌, Option, none, some, Bytes, codes, bytes_eq,
  if◌then◌else◌, ◌==◌, value_or, map, keep_if, has_value, min, ◌+◌, ◌/◌,
}
use shigoku.Common.Int.{ℤ, ltb_ℤ, pos}
use shigoku.Domain.Types.{ListStatus, watching, planning}
use shigoku.Domain.Enums.{eq_status}
use shigoku.Store.Types.{
  Result, ok, err, StoreError, ListEntry, SyncRow, AiringCandidate, MalMirrorRow,
}
use shigoku.Store.Rows.{Row, Table, score_of}

-- `x IS NULL OR x <> y`.
abbrev pub status_moved : Option ListStatus → ListStatus → Bool
status_moved none s = true
status_moved (some t) s = not (eq_status t s)

abbrev pub number_moved : Option ℕ → ℕ → Bool
number_moved none n = true
number_moved (some m) n = not (m == n)

-- The WHERE of `list_dirty_for_sync`.
unfoldable pub is_dirty : Row → Bool
is_dirty r =
    has_value r.library_added_at
    && (ltb_ℤ (pos 0) r.anilist_id
        && (status_moved r.synced_status r.list_status
            || (number_moved r.synced_progress r.progress
                || not (value_or r.synced_score 0 == score_of r))))

-- The ORDER BY of the push work lists: DESC NULLS LAST, then DESC, then ascending.
abbrev pub later : Option ℤ → Option ℤ → Bool
later none b = false
later (some a) none = true
later (some a) (some b) = ltb_ℤ b a

unfoldable pub goes_before : Row → Row → Bool
goes_before a b =
    if later a.last_watched_at b.last_watched_at
    then true
    else if later b.last_watched_at a.last_watched_at
    then false
    else if later a.library_added_at b.library_added_at
    then true
    else if later b.library_added_at a.library_added_at
    then false
    else ltb_ℤ a.anilist_id b.anilist_id

module _ (before : Row → Row → Bool) where
  unfoldable pub insert_row : Row → Table → Table
  insert_row r [] = r ∷ []
  insert_row r (s ∷ rows) =
      let rest = insert_row r rows in if before s r then s ∷ rest else r ∷ s ∷ rows

  unfoldable pub order_by : Table → Table
  order_by [] = []
  order_by (r ∷ rows) = insert_row r (order_by rows)

-- The snapshot, where both of its parts are there.
abbrev pub snapshot_entry : Option ListStatus → Option ℕ → Option ℕ → Option ListEntry
snapshot_entry (some s) (some p) score =
    some (record { status = s; progress = p; score = value_or score 0 })
snapshot_entry _ _ score = none

unfoldable pub to_sync_row : Row → SyncRow
to_sync_row r = record {
  anilist_id = r.anilist_id;
  title_romaji = r.title_romaji;
  list_status = r.list_status;
  progress = r.progress;
  score = score_of r;
  synced = snapshot_entry r.synced_status r.synced_progress r.synced_score;
}

unfoldable pub list_dirty_for_sync : Option StoreError → Table → Result StoreError (List SyncRow)
list_dirty_for_sync (some e) rows = err e
list_dirty_for_sync none rows = ok (map to_sync_row (order_by goes_before (keep_if is_dirty rows)))

-- MAL's own scale of 0 to 10, rounded half up.
unfoldable pub to_mal_score : ℕ → ℕ
to_mal_score raw = min ((raw + 5) / 10) 10

-- The WHERE of `list_dirty_for_mal_mirror`; the statement's ROUND has no cap.
unfoldable pub is_mal_dirty : Row → Bool
is_mal_dirty r =
    has_value r.library_added_at
    && (has_value r.mal_id
        && (status_moved r.mal_synced_status r.list_status
            || (number_moved r.mal_synced_progress r.progress
                || not (value_or r.mal_synced_score 0 == (score_of r + 5) / 10))))

abbrev pub snapshot_pair : Option ListStatus → Option ℕ → Option (ListStatus × ℕ)
snapshot_pair (some s) (some p) = some (s, p)
snapshot_pair _ _ = none

unfoldable pub to_mal_row : Row → MalMirrorRow
to_mal_row r = record {
  anilist_id = r.anilist_id;
  mal_id = value_or r.mal_id (pos 0);
  list_status = r.list_status;
  progress = r.progress;
  score = to_mal_score (score_of r);
  synced = snapshot_pair r.mal_synced_status r.mal_synced_progress;
  synced_score = r.mal_synced_score;
}

unfoldable pub list_dirty_for_mal_mirror :
    Option StoreError → Table → Result StoreError (List MalMirrorRow)
list_dirty_for_mal_mirror (some e) rows = err e
list_dirty_for_mal_mirror none rows =
    ok (map to_mal_row (order_by goes_before (keep_if is_mal_dirty rows)))

-- A stamp that is missing or past.
abbrev pub is_due : Option ℤ → ℤ → Bool
is_due none now = true
is_due (some at) now = not (ltb_ℤ now at)

abbrev pub is_finished : Option Bytes → Bool
is_finished none = false
is_finished (some s) = bytes_eq s (codes "FINISHED")

unfoldable pub is_airing_candidate : ℤ → Row → Bool
is_airing_candidate now r =
    has_value r.library_added_at
    && ((eq_status r.list_status watching || eq_status r.list_status planning)
        && (is_due r.next_airing_at now && not (is_finished r.status)))

unfoldable pub list_airing_candidates :
    Option StoreError → ℤ → Table → Result StoreError (List AiringCandidate)
list_airing_candidates (some e) now rows = err e
list_airing_candidates none now rows = ok (
    map (λ r. record { anilist_id = r.anilist_id; mal_id = r.mal_id })
      (order_by (λ a b. ltb_ℤ a.anilist_id b.anilist_id) (keep_if (is_airing_candidate now) rows)))
