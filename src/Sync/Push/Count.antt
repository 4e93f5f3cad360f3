-- ===== src/Sync/Push/Count.antt =====
-- src/sync.cpp, `push_dirty`: the counters of the summary.
use shigoku.Common.{
  ℕ, zero, suc, ◌+◌, ◌<◌, ◌^◌, ◌≡◌, Bool, true, false, List, [], ◌∷◌, Option, none, some, arith,
  if◌then◌else◌, Bool-cases, length, inl, inr,
}
use shigoku.Common.Int.{ℤ}
use shigoku.Domain.Types.{ScoreFormat}
use shigoku.Store.Types.{Result, ok, err, StoreError, ProviderError, ListEntry, SyncRow}
use shigoku.Sync.Types.{
  SyncSummary, SyncOutcome, slept, fetched, saved, marked, Log, Env, rate_limit_backoff, is_401,
  is_429, push_spacing, terminal,
}
use shigoku.Sync.Push.{
  State, Flow, go_on, stop, fail, note, on_rate_limit, on_error, on_saved, save_row, may_save,
  guard_row, attempt, contains, row_flow, rows_flow, push_dirty, skip_row, fail_row, push_row,
  end_with, stored_score,
}

abbrev pub total : SyncSummary → ℕ
total s = s.pushed + s.push_failed + s.push_skipped

-- d rows are dirty, and n of them are counted.
abbrev pub Tally : ℕ → ℕ → State → Type 0
Tally d n st = (st.summary.dirty ≡ d) × (total st.summary ≡ n)

-- The row is counted if the loop goes on, and not if the run ends at it.
abbrev Counted : ℕ → ℕ → Option Flow → Type 0
Counted d n none = Unit {0}
Counted d n (some (go_on st)) = Tally d (n + 1) st
Counted d n (some (stop st)) = Tally d n st
Counted d n (some (fail e st)) = Tally d n st

module _ (d n : ℕ) (fits : n + 1 < 2 ^ 32) (env : Env) (format : ScoreFormat) (row : SyncRow) where
  abbrev Retries : (State → Option Flow) → Type 0
  Retries retry = (st : State) → Tally d n st → Counted d n (retry st)

  fail_row-Tally : (st : State) → Tally d n st → Tally d (n + 1) (fail_row st)
  fail_row-Tally st t = omega arith

  skip_row-Tally : (st : State) → Tally d n st → Tally d (n + 1) (skip_row st)
  skip_row-Tally st t = omega arith

  push_row-Tally : (st : State) → Tally d n st → Tally d (n + 1) (push_row st)
  push_row-Tally st t = omega arith

  on_rate_limit-Counted :
      (retry : State → Option Flow) (st : State)
      → Tally d n st
      → Retries retry
      → Counted d n (on_rate_limit retry st)
  unfolding on_rate_limit
  on_rate_limit-Counted retry st t again = go st.backed_off
    where
      slow : State
      slow = note (slept rate_limit_backoff) (record st { backed_off = true })

      go :
          (b : Bool)
          → Counted d n
              (if b then some (stop (end_with SyncOutcome.rate_limited st)) else retry slow)
      go true = t
      go false = again slow t

  on_error-Counted :
      (retry : State → Option Flow) (e : ProviderError) (st : State)
      → Tally d n st
      → Retries retry
      → Counted d n (on_error retry e st)
  unfolding on_error
  on_error-Counted retry e st t again = elim (Bool-cases (is_401 e)) [
    | inl h ↦ rw h t
    | inr h ↦ elim (Bool-cases (is_429 e)) [
      | inr k ↦ rw (h, k) (fail_row-Tally st t)
      | inl k ↦ rw (h, k) (on_rate_limit-Counted retry st t again)
    ]
  ]

  on_saved-Counted : (st : State) → Tally d n st → Counted d n (some (on_saved env format row st))
  unfolding on_saved
  on_saved-Counted st t = go (env.mark_synced st.log row stored)
    where
      stored : ℕ
      stored = stored_score row.score format

      go :
          (a : Result StoreError (Unit {0}))
          → Counted d n (
              some (elim a [
                | ok _ ↦ go_on (push_row (note (marked row stored) st))
                | err e ↦ fail e (note (marked row stored) st)
              ]))
      go (ok _) = push_row-Tally (note (marked row stored) st) t
      go (err e) = t

  save_row-Counted :
      (retry : State → Option Flow) (st : State)
      → Tally d n st
      → Retries retry
      → Counted d n (save_row env format retry row st)
  unfolding save_row
  save_row-Counted retry st t again =
      let a = env.save_entry st.log row in go (note (saved row a) st) a t
    where
      go :
          (s : State) (a : Result ProviderError ℤ)
          → Tally d n s
          → Counted d n
              (elim a [ ok _ ↦ some (on_saved env format row s) | err e ↦ on_error retry e s ])
      go s (ok id) u = on_saved-Counted s u
      go s (err e) u = on_error-Counted retry e s u again

  guard_row-Counted :
      (retry : State → Option Flow) (st : State)
      → Tally d n st
      → Retries retry
      → Counted d n (guard_row env format retry row st)
  unfolding guard_row
  guard_row-Counted retry st t again =
      let a = env.fetch_entry st.log row.anilist_id in go (note (fetched row.anilist_id a) st) a t
    where
      go :
          (s : State) (a : Result ProviderError (Option ListEntry))
          → Tally d n s
          → Counted d n (elim a [
            | ok live ↦
                if may_save live row.synced
                then save_row env format retry row s
                else some (go_on (skip_row s))
            | err e ↦ on_error retry e s
          ])
      go s (ok live) u = elim (Bool-cases (may_save live row.synced)) [
        | inl h ↦ rw h (save_row-Counted retry s u again)
        | inr h ↦ rw h (skip_row-Tally s u)
      ]
      go s (err e) u = on_error-Counted retry e s u again

  attempt-Counted :
      (fuel : ℕ) (st : State) → Tally d n st → Counted d n (attempt fuel env format row st)
  unfolding attempt
  attempt-Counted zero st t = tt
  attempt-Counted (suc fuel) st t =
      guard_row-Counted (attempt fuel env format row) st t (λ s u. attempt-Counted fuel s u)

  row_flow-Counted :
      (contended : List ℤ) (st : State)
      → Tally d n st
      → Counted d n (row_flow env format contended row st)
  unfolding row_flow
  row_flow-Counted contended st t = elim (Bool-cases (contains contended row.anilist_id)) [
    | inl h ↦ rw h (skip_row-Tally st t)
    | inr h ↦ rw h (attempt-Counted 2 _ (spaced st.called))
  ]
    where
      spaced :
          (called : Bool)
          → Tally d n
              (record (if called then note (slept push_spacing) st else st) { called = true })
      spaced true = t
      spaced false = t

-- Where the counters stand when the run ends: all rows counted, or not all.
abbrev pub Ends : ℕ → Option Flow → Type 0
Ends d none = Unit {0}
Ends d (some (go_on st)) = Tally d d st
Ends d (some (stop st)) = (st.summary.dirty ≡ d) × (total st.summary < d)
Ends d (some (fail e st)) = (st.summary.dirty ≡ d) × (total st.summary < d)

rows_flow-Ends :
    (d n : ℕ) (env : Env) (format : ScoreFormat) (contended : List ℤ) (rows : List SyncRow)
    (st : State)
    → d < 2 ^ 32
    → n + length rows ≡ d
    → Tally d n st
    → Ends d (rows_flow env format contended rows st)
unfolding rows_flow
rows_flow-Ends d n env format contended [] st fits e t = omega arith
rows_flow-Ends d n env format contended (row ∷ rows) st fits e t =
    go (row_flow env format contended row st)
      (row_flow-Counted d n (omega arith) env format row contended st t)
      (λ s u. rows_flow-Ends d (n + 1) env format contended rows s fits (omega arith) u)
  where
    go :
        (f : Option Flow)
        → Counted d n f
        → ((s : State) → Tally d (n + 1) s → Ends d (rows_flow env format contended rows s))
        → Ends d (elim f [
          | none ↦ none
          | some (go_on st') ↦ rows_flow env format contended rows st'
          | some (stop st') ↦ some (stop st')
          | some (fail e st') ↦ some (fail e st')
        ])
    go none h later = tt
    go (some (go_on s)) h later = later s h
    go (some (stop s)) h later = omega arith
    go (some (fail x s)) h later = omega arith

-- For a work list of fewer than 2^32 rows, a push that is not cut short counts every row exactly once
-- as pushed, failed or skipped; one that a 401, a second 429 or the store ends has counted fewer rows
-- than are dirty; and either way the summary's dirty count is the length of the work list.
pub push_dirty-Ends :
    (env : Env) (format : ScoreFormat) (contended : List ℤ) (log : Log) (rows : List SyncRow)
    → env.list_dirty_for_sync log ≡ ok rows
    → length rows < 2 ^ 32
    → Ends (length rows) (push_dirty env format contended log (terminal SyncOutcome.completed))
unfolding push_dirty
push_dirty-Ends env format contended log rows e fits =
    rw (e, push_dirty)
      (rows_flow-Ends (length rows) 0 env format contended rows _ fits (omega arith) (omega arith))
