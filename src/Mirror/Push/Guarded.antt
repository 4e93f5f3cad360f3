-- ===== src/Mirror/Push/Guarded.antt =====
-- src/mal_mirror.cpp, `push_mirror`: the order of its calls.
use shigoku.Common.{
  ℕ, ◌≡◌, ◌≢◌, refl, Bool, true, false, List, [], ◌∷◌, Option, none, some, Bytes, arith, Bool-cases,
  inl, inr,
}
use shigoku.Domain.Enums.{eq_status_iff}
use shigoku.Domain.Types.{ListStatus}
use shigoku.Store.Types.{Result, ok, err, ProviderError, StoreError, MalMirrorRow, Result-cases}
use shigoku.Mirror.Push.{
  Live, looked, saved, after_save, after_look, marked, listed, MirrorLog, MirrorEnv, MirrorSummary,
  Step, next_row, done, broke, may_push, push_score, mark_row, save_mirror, mirror_row, mirror_rows,
  push_mirror, on_mirror_error, inc32,
}

-- MAL holds nothing that the row's snapshots do not account for.
abbrev pub IsUnmoved : Option Live → MalMirrorRow → Type 0
IsUnmoved none row = Unit {0}
IsUnmoved (some live) row =
    ((s : ListStatus) (p : ℕ) → row.synced ≡ some (s, p) → (live.status ≡ s) × (live.progress ≡ p))
    × ((score : ℕ) → row.synced_score ≡ some score → live.score ≡ score)

-- What has to stand right before a call.
abbrev pub Looked : MalMirrorRow → MirrorLog → Type 0
Looked row [] = ⊥
Looked row (looked id (ok live) ∷ log) = (id ≡ row.mal_id) × IsUnmoved live row
Looked row (_ ∷ log) = ⊥

abbrev pub Accepted : MalMirrorRow → Option ℕ → MirrorLog → Type 0
Accepted row score [] = ⊥
Accepted row score (saved r s (ok _) ∷ log) = (r ≡ row) × (s ≡ score)
Accepted row score (_ ∷ log) = ⊥

abbrev pub SafeMirrorLog : MirrorLog → Type 0
SafeMirrorLog [] = Unit {0}
SafeMirrorLog (saved row score answer ∷ log) = Looked row log × (score ≢ some 0) × SafeMirrorLog log
SafeMirrorLog (marked row score ∷ log) = Accepted row score log × SafeMirrorLog log
SafeMirrorLog (looked id answer ∷ log) = SafeMirrorLog log
SafeMirrorLog (listed ∷ log) = SafeMirrorLog log

abbrev pub log_of : Step → MirrorLog
log_of (next_row s log) = log
log_of (done s log) = log
log_of (broke e log) = log

may_push-IsUnmoved :
    (live : Option Live) (row : MalMirrorRow) → may_push live row ≡ true → IsUnmoved live row
unfolding may_push
may_push-IsUnmoved none row h = tt
may_push-IsUnmoved (some live) row h =
    (λ s p e. ground (arith, eq_status_iff live.status s), λ score e. ground arith)

push_score-ne-zero : (score : ℕ) → push_score score ≢ some 0
unfolding push_score
push_score-ne-zero score e = ground arith

on_mirror_error-log :
    (e : ProviderError) (s : MirrorSummary) (log : MirrorLog)
    → log_of (on_mirror_error e s log) ≡ log
on_mirror_error-log e s log = ground arith

module _ (env : MirrorEnv) where
  mark_row-Safe :
      (row : MalMirrorRow) (score : Option ℕ) (s : MirrorSummary) (log : MirrorLog)
      → Accepted row score log
      → SafeMirrorLog log
      → SafeMirrorLog (log_of (mark_row env row score s log))
  unfolding mark_row
  mark_row-Safe row score s log a h = go (env.mark_mal_synced log row score)
    where
      go :
          (answer : Result StoreError (Unit {0}))
          → SafeMirrorLog (
              log_of (elim answer [
                | ok _ ↦ next_row (record s { pushed = inc32 s.pushed }) (marked row score ∷ log)
                | err e ↦ broke e (marked row score ∷ log)
              ]))
      go (ok _) = (a, h)
      go (err e) = (a, h)

  after_save-Safe :
      (row : MalMirrorRow) (score : Option ℕ) (answer : Result ProviderError (Unit {0}))
      (s : MirrorSummary) (log : MirrorLog)
      → Looked row log
      → score ≢ some 0
      → SafeMirrorLog log
      → SafeMirrorLog (log_of (after_save env row score answer s (saved row score answer ∷ log)))
  unfolding after_save
  after_save-Safe row score (ok u) s log l n h =
      mark_row-Safe row score s (saved row score (ok u) ∷ log) (refl, refl) (l, n, h)
  after_save-Safe row score (err e) s log l n h =
      rw (on_mirror_error-log e s (saved row score (err e) ∷ log)) (l, n, h)

  save_mirror-Safe :
      (row : MalMirrorRow) (s : MirrorSummary) (log : MirrorLog)
      → Looked row log
      → SafeMirrorLog log
      → SafeMirrorLog (log_of (save_mirror env row s log))
  unfolding save_mirror
  save_mirror-Safe row s log l h = after_save-Safe row _ _ s log l (push_score-ne-zero row.score) h

  after_look-Safe :
      (row : MalMirrorRow) (answer : Result ProviderError (Option Live)) (s : MirrorSummary)
      (log : MirrorLog)
      → SafeMirrorLog log
      → SafeMirrorLog (log_of (after_look env row answer s (looked row.mal_id answer ∷ log)))
  unfolding after_look
  after_look-Safe row (err e) s log h =
      rw (on_mirror_error-log e s (looked row.mal_id (err e) ∷ log)) h
  after_look-Safe row (ok live) s log h = elim (Bool-cases (may_push live row)) [
    | inr m ↦ rw m h
    | inl m ↦ rw m (
        save_mirror-Safe row s (looked row.mal_id (ok live) ∷ log)
          (refl, may_push-IsUnmoved live row m) h)
  ]

  mirror_row-Safe :
      (row : MalMirrorRow) (s : MirrorSummary) (log : MirrorLog)
      → SafeMirrorLog log
      → SafeMirrorLog (log_of (mirror_row env row s log))
  unfolding mirror_row
  mirror_row-Safe row s log h = after_look-Safe row (env.fetch_entry log row.mal_id) s log h

  mirror_rows-Safe :
      (rows : List MalMirrorRow) (s : MirrorSummary) (log : MirrorLog)
      → SafeMirrorLog log
      → SafeMirrorLog (log_of (mirror_rows env rows s log))
  unfolding mirror_rows
  mirror_rows-Safe [] s log h = h
  mirror_rows-Safe (row ∷ rows) s log h =
      go (mirror_row env row s log) (mirror_row-Safe row s log h) (mirror_rows-Safe rows)
    where
      go :
          (st : Step)
          → SafeMirrorLog (log_of st)
          → ((s' : MirrorSummary) (l : MirrorLog)
              → SafeMirrorLog l
              → SafeMirrorLog (log_of (mirror_rows env rows s' l)))
          → SafeMirrorLog (
              log_of (elim st [
                | next_row s' log' ↦ mirror_rows env rows s' log'
                | done s' log' ↦ done s' log'
                | broke e log' ↦ broke e log'
              ]))
      go (next_row s' l) k ih = ih s' l k
      go (done s' l) k ih = k
      go (broke e l) k ih = k

  -- Whatever MAL and the store answer: a row is saved only right after MAL showed no entry for it, or
  -- one that agrees with each snapshot the row has; a save never carries the score 0, which would
  -- remove the user's score; and a snapshot is written only right after MAL accepted that row's save,
  -- with the score that was sent.
  pub push_mirror-Safe :
      (bearer : Option Bytes) (enabled : Bool)
      → SafeMirrorLog (log_of (push_mirror env bearer enabled))
  unfolding push_mirror
  push_mirror-Safe bearer false = tt
  push_mirror-Safe none true = tt
  push_mirror-Safe (some token) true = elim (Result-cases (env.list_dirty [])) [
    | inr (p, e) ↦ rw e tt
    | inl (rows, e) ↦ rw e (mirror_rows-Safe rows _ _ tt)
  ]
