-- ===== src/Sync/Push.antt =====
-- `push_dirty` of src/sync.cpp.
pub mod Guarded
pub mod Loop
pub mod Count
use shigoku.Common.{
  ℕ, zero, suc, ◌%◌, ◌^◌, Bool, true, false, List, [], ◌∷◌, Option, none, some, if◌then◌else◌,
  length,
}
use shigoku.Common.Int.{ℤ, eq_ℤ}
use shigoku.Domain.Types.{ScoreFormat}
use shigoku.Domain.Score.{stored_score}
use shigoku.Store.Types.{ok, err, StoreError, ProviderError, ListEntry, SyncRow}
use shigoku.Store.Merge.{eq_entry}
use shigoku.Sync.Types.{
  SyncOutcome, unauthorized, rate_limited, SyncSummary, inc32, push_spacing, rate_limit_backoff,
  Event, slept, listed, fetched, saved, marked, Log, Env, is_401, is_429,
}

-- The locals of the loop, the summary and the calls made.
pub record State : Type 0 where
  pub log : Log
  pub summary : SyncSummary
  pub backed_off : Bool
  pub called : Bool

-- How a row, or the whole loop, ends: on to the next row, a `return Unit{}`, or a store error.
pub data Flow : Type 0 where
  go_on : State → Flow
  stop : State → Flow
  fail : StoreError → State → Flow

abbrev pub note : Event → State → State
note e st = record st { log = e ∷ st.log }

abbrev pub skip_row : State → State
skip_row st = record st {
  summary = record st.summary { push_skipped = inc32 st.summary.push_skipped };
}

abbrev pub fail_row : State → State
fail_row st = record st {
  summary = record st.summary { push_failed = inc32 st.summary.push_failed };
}

abbrev pub push_row : State → State
push_row st = record st { summary = record st.summary { pushed = inc32 st.summary.pushed } }

abbrev pub end_with : SyncOutcome → State → State
end_with o st = record st { summary = record st.summary { outcome = o } }

-- A 429: the first one backs off once and tries the row again, the second one stops the run.
pub on_rate_limit : (State → Option Flow) → State → Option Flow
on_rate_limit retry st =
    let again = retry (note (slept rate_limit_backoff) (record st { backed_off = true })) in
    if st.backed_off then some (stop (end_with rate_limited st)) else again

-- A failed call, with what else the caller does on it.
pub on_error : (State → Option Flow) → ProviderError → State → Option Flow
unfolding on_rate_limit
on_error retry e st =
    if is_401 e
    then some (stop (end_with unauthorized st))
    else if is_429 e
    then on_rate_limit retry st
    else some (go_on (fail_row st))

-- The snapshot that follows an accepted save, with what the server stored of the score.
pub on_saved : Env → ScoreFormat → SyncRow → State → Flow
on_saved env format row st =
    let stored = stored_score row.score format in
    elim (env.mark_synced st.log row stored) [
      | ok _ ↦ go_on (push_row (note (marked row stored) st))
      | err e ↦ fail e (note (marked row stored) st)
    ]

pub save_row : Env → ScoreFormat → (State → Option Flow) → SyncRow → State → Option Flow
unfolding on_error on_saved
save_row env format retry row st =
    let answer = env.save_entry st.log row in
    let st' = note (saved row answer) st in
    elim answer [ ok _ ↦ some (on_saved env format row st') | err e ↦ on_error retry e st' ]

-- No entry on the server, or the one that the last snapshot recorded.
pub may_save : Option ListEntry → Option ListEntry → Bool
may_save none synced = true
may_save (some live) none = false
may_save (some live) (some synced) = eq_entry live synced

-- One round of the inner loop: look at the server's entry, then save.
pub guard_row : Env → ScoreFormat → (State → Option Flow) → SyncRow → State → Option Flow
unfolding on_error save_row may_save
guard_row env format retry row st =
    let answer = env.fetch_entry st.log row.anilist_id in
    let st' = note (fetched row.anilist_id answer) st in
    elim answer [
      | ok live ↦
          if may_save live row.synced
          then save_row env format retry row st'
          else some (go_on (skip_row st'))
      | err e ↦ on_error retry e st'
    ]

-- The inner loop, with fuel; `none` means that the fuel ran out.
pub attempt : ℕ → Env → ScoreFormat → SyncRow → State → Option Flow
unfolding guard_row
attempt zero env format row st = none
attempt (suc fuel) env format row st = guard_row env format (attempt fuel env format row) row st

unfoldable pub contains : List ℤ → ℤ → Bool
contains [] id = false
contains (x ∷ xs) id = if eq_ℤ x id then true else contains xs id

-- The spacing between calls, then the inner loop. Two rounds are all that it ever makes.
pub row_flow : Env → ScoreFormat → List ℤ → SyncRow → State → Option Flow
unfolding contains attempt
row_flow env format contended row st =
    if contains contended row.anilist_id
    then some (go_on (skip_row st))
    else let spaced = if st.called then note (slept push_spacing) st else st in
      attempt 2 env format row (record spaced { called = true })

pub rows_flow : Env → ScoreFormat → List ℤ → List SyncRow → State → Option Flow
rows_flow env format contended [] st = some (go_on st)
rows_flow env format contended (row ∷ rows) st = elim (row_flow env format contended row st) [
  | none ↦ none
  | some (go_on st') ↦ rows_flow env format contended rows st'
  | some (stop st') ↦ some (stop st')
  | some (fail e st') ↦ some (fail e st')
]

abbrev pub begin_push : Log → SyncSummary → State
begin_push log summary = record { log = log; summary = summary; backed_off = false; called = false }

pub push_dirty : Env → ScoreFormat → List ℤ → Log → SyncSummary → Option Flow
unfolding rows_flow row_flow
push_dirty env format contended log summary = elim (env.list_dirty_for_sync log) [
  | err e ↦ some (fail e (begin_push (listed ∷ log) summary))
  | ok rows ↦
      rows_flow env format contended rows
        (begin_push (listed ∷ log) (record summary { dirty = length rows % 2 ^ 32 }))
]
