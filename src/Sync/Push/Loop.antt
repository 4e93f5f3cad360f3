-- ===== src/Sync/Push/Loop.antt =====
-- The loop of `push_dirty` over the work list, and the whole push.
use shigoku.Common.{
  ◌%◌, ◌^◌, ◌≤◌, ◌≡◌, Bool, true, false, List, [], ◌∷◌, Option, none, some, arith, if◌then◌else◌,
  length,
}
use shigoku.Common.Int.{ℤ}
use shigoku.Domain.Types.{ScoreFormat}
use shigoku.Store.Types.{Result, ok, err, StoreError, SyncRow}
use shigoku.Sync.Types.{SyncSummary, listed, Log, Env}
use shigoku.Sync.Push.{State, Flow, go_on, stop, fail, row_flow, rows_flow, push_dirty, begin_push}
use shigoku.Sync.Push.Guarded.{SafeLog, backoffs, Inv, Ensures, row_flow-Ensures}

module _ (contended : List ℤ) (env : Env) (format : ScoreFormat) where
  rows_flow-Ensures :
      (rows : List SyncRow) (st : State)
      → Inv contended st
      → Ensures (Inv contended) (rows_flow env format contended rows st)
  unfolding rows_flow
  rows_flow-Ensures [] st inv = inv
  rows_flow-Ensures (row ∷ rows) st inv =
      go (row_flow env format contended row st) (row_flow-Ensures contended env format row st inv)
        (λ s i. rows_flow-Ensures rows s i)
    where
      go :
          (f : Option Flow)
          → Ensures (Inv contended) f
          → ((s : State)
              → Inv contended s
              → Ensures (Inv contended) (rows_flow env format contended rows s))
          → Ensures (Inv contended) (elim f [
            | none ↦ none
            | some (go_on st') ↦ rows_flow env format contended rows st'
            | some (stop st') ↦ some (stop st')
            | some (fail e st') ↦ some (fail e st')
          ])
      go none h later = h
      go (some (go_on s)) h later = later s h
      go (some (stop s)) h later = h
      go (some (fail e s)) h later = h

  Ensures-weaken :
      (P Q : State → Type 0) (f : Option Flow)
      → ((st : State) → P st → Q st)
      → Ensures P f
      → Ensures Q f
  Ensures-weaken P Q none w h = h
  Ensures-weaken P Q (some (go_on st)) w h = w st h
  Ensures-weaken P Q (some (stop st)) w h = w st h
  Ensures-weaken P Q (some (fail e st)) w h = w st h

  -- What a run leaves: a safe log, at most one backoff, the contended rows still the pull's.
  abbrev pub Leaves : State → Type 0
  Leaves st =
      SafeLog contended st.log × (backoffs st.log ≤ 1) × (st.summary.pulled.contended ≡ contended)

  Inv-Leaves : (st : State) → Inv contended st → Leaves st
  Inv-Leaves st inv = (inv.safe, once st.backed_off inv.once, inv.held)
    where
      once : (b : Bool) → backoffs st.log ≡ (if b then 1 else 0) → backoffs st.log ≤ 1
      once true e = omega arith
      once false e = omega arith

  -- However the server and the store answer, a push ends, and: every save is made right after the
  -- server showed no entry for the row or exactly the row's last snapshot; every snapshot is written
  -- right after the server accepted that row's save; no contended row is saved or marked; and the run
  -- backs off for a rate limit at most once. It is stated for a push that follows a safe log with no
  -- backoff, in a run whose pull left the given rows contended.
  pub push_dirty-Ensures :
      (log : Log) (summary : SyncSummary)
      → SafeLog contended log
      → backoffs log ≡ 0
      → summary.pulled.contended ≡ contended
      → Ensures Leaves (push_dirty env format contended log summary)
  unfolding push_dirty
  push_dirty-Ensures log summary safe none_yet held =
      Ensures-weaken (Inv contended) Leaves _ Inv-Leaves (go (env.list_dirty_for_sync log))
    where
      fresh :
          (s : SyncSummary)
          → s.pulled.contended ≡ contended
          → Inv contended (begin_push (listed ∷ log) s)
      fresh s h = record { safe = safe; once = none_yet; held = h }

      go :
          (a : Result StoreError (List SyncRow))
          → Ensures (Inv contended) (elim a [
            | err e ↦ some (fail e (begin_push (listed ∷ log) summary))
            | ok rows ↦
                rows_flow env format contended rows
                  (begin_push (listed ∷ log) (record summary { dirty = length rows % 2 ^ 32 }))
          ])
      go (ok rows) = rows_flow-Ensures rows _ (fresh _ held)
      go (err e) = fresh summary held
