-- ===== src/Sync/Run/Safe.antt =====
-- src/sync.cpp, `run_sync` and `flush_push`: the calls that a run makes.
use shigoku.Store.Types.{PullOutcome}
use shigoku.Common.{
  ◌≤◌, ◌≡◌, refl, inl, inr, Bool, true, false, List, [], ◌∷◌, Option, none, some, arith, Bool-cases,
  Bytes,
}
use shigoku.Common.Int.{ℤ}
use shigoku.Sync.Types.{
  SyncSummary, Log, Env, AniListAuth, terminal, completed, pulled_list, reconciled,
}
use shigoku.Sync.Push.{Flow, go_on, stop, fail, push_dirty}
use shigoku.Sync.Push.Guarded.{SafeLog, backoffs, Ensures}
use shigoku.Sync.Push.Loop.{Leaves, push_dirty-Ensures}
use shigoku.Sync.Run.{
  Run, summary, store_failed, out_of_fuel, run_of, after_pull, adopt, missed_pull, pull, run_sync,
  flush_push, usable_auth, RemoteEntry, ProviderError, Result, StoreError, is_401, ok, SyncOutcome,
  is_429, err,
}

-- The run came to an end, and made its saves and marks as a push must, with the rows that its own
-- summary calls contended left alone. A run that a store error ends has no summary.
abbrev pub IsSafeRun : Run → Type 0
IsSafeRun (summary s log) = SafeLog s.pulled.contended log × (backoffs log ≤ 1)
IsSafeRun (store_failed e log) = (contended : List ℤ) × SafeLog contended log × (backoffs log ≤ 1)
IsSafeRun out_of_fuel = ⊥

module _ (env : Env) (auth : AniListAuth) where
  run_of-IsSafeRun :
      (contended : List ℤ) (f : Option Flow)
      → Ensures (Leaves contended env auth.score_format) f
      → IsSafeRun (run_of f)
  run_of-IsSafeRun contended none h = h
  run_of-IsSafeRun contended (some (go_on st)) h = (rw h.2 h.0, h.1)
  run_of-IsSafeRun contended (some (stop st)) h = (rw h.2 h.0, h.1)
  run_of-IsSafeRun contended (some (fail e st)) h = (contended, h.0, h.1)

  after_pull-IsSafeRun :
      (pull_only : Bool) (log : Log) (s : SyncSummary)
      → SafeLog s.pulled.contended log
      → backoffs log ≡ 0
      → IsSafeRun (after_pull env auth pull_only log s)
  unfolding after_pull
  after_pull-IsSafeRun true log s safe z = (safe, omega arith)
  after_pull-IsSafeRun false log s safe z =
      run_of-IsSafeRun s.pulled.contended _
        (push_dirty-Ensures s.pulled.contended env auth.score_format log s safe z refl)

  adopt-IsSafeRun :
      (pull_only : Bool) (remote : List RemoteEntry)
      → IsSafeRun (adopt env auth pull_only (pulled_list ∷ []) remote)
  unfolding adopt
  adopt-IsSafeRun pull_only remote = go (env.reconcile_pull (pulled_list ∷ []) remote)
    where
      go :
          (a : Result StoreError PullOutcome)
          → IsSafeRun (elim a [
            | err e ↦ store_failed e (reconciled ∷ pulled_list ∷ [])
            | ok pulled ↦
                after_pull env auth pull_only
                  (reconciled ∷ pulled_list ∷ [])
                  (record (terminal completed) { pulled = pulled })
          ])
      go (ok pulled) = after_pull-IsSafeRun pull_only _ _ tt refl
      go (err e) = ([], tt, omega arith)

  missed_pull-IsSafeRun :
      (pull_only : Bool) (e : ProviderError)
      → IsSafeRun (missed_pull env auth pull_only (pulled_list ∷ []) e)
  unfolding missed_pull
  missed_pull-IsSafeRun pull_only e = elim (Bool-cases (is_401 e)) [
    | inl h ↦ rw h (tt, omega arith)
    | inr h ↦ elim (Bool-cases (is_429 e)) [
      | inl k ↦ rw (h, k) (tt, omega arith)
      | inr k ↦ rw (h, k) (after_pull-IsSafeRun pull_only _ _ tt refl)
    ]
  ]

  pull-IsSafeRun : (pull_only : Bool) → IsSafeRun (pull env auth pull_only)
  unfolding pull
  pull-IsSafeRun pull_only = go (env.fetch_list [])
    where
      go :
          (a : Result ProviderError (List RemoteEntry))
          → IsSafeRun (elim a [
            | ok remote ↦ adopt env auth pull_only (pulled_list ∷ []) remote
            | err e ↦ missed_pull env auth pull_only (pulled_list ∷ []) e
          ])
      go (ok remote) = adopt-IsSafeRun pull_only remote
      go (err e) = missed_pull-IsSafeRun pull_only e

  -- A full sync and a quit flush both end, whatever the server and the store answer. In each, every
  -- save follows at once on a look at the server that showed no entry or exactly the row's last
  -- snapshot, every snapshot follows at once on that row's accepted save, there is at most one
  -- rate-limit backoff, and a run that returns a summary has saved or marked no row that the summary
  -- lists as contended.
  pub run_sync-IsSafeRun :
      (now : ℤ) (enabled pull_only : Bool)
      → IsSafeRun (run_sync env auth now enabled pull_only)
        × IsSafeRun (flush_push env auth now enabled)
  unfolding run_sync flush_push
  run_sync-IsSafeRun now false pull_only = ((tt, omega arith), (tt, omega arith))
  run_sync-IsSafeRun now true pull_only = (go (usable_auth auth now), flush (usable_auth auth now))
    where
      go :
          (a : Result SyncOutcome (Bytes × ℤ))
          → IsSafeRun (elim a [ err o ↦ summary (terminal o) [] | ok _ ↦ pull env auth pull_only ])
      go (err o) = (tt, omega arith)
      go (ok _) = pull-IsSafeRun pull_only

      flush :
          (a : Result SyncOutcome (Bytes × ℤ))
          → IsSafeRun (elim a [
            | err o ↦ summary (terminal o) []
            | ok _ ↦ run_of (push_dirty env auth.score_format [] [] (terminal completed))
          ])
      flush (err o) = (tt, omega arith)
      flush (ok _) =
          run_of-IsSafeRun [] _
            (push_dirty-Ensures [] env auth.score_format [] (terminal completed) tt refl refl)
