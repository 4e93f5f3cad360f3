-- ===== src/Mirror/Push.antt =====
-- `push_mirror` of src/mal_mirror.cpp, with the calls it makes, the last one first. The answers of the
-- MAL client and of the store depend on the calls before.
pub mod Guarded
use shigoku.Common.{
  ℕ, ◌+◌, ◌%◌, ◌^◌, Bool, true, false, not, ◌&&◌, ◌||◌, List, [], ◌∷◌, Option, none, some, Bytes,
  if◌then◌else◌, ◌==◌, length,
}
use shigoku.Common.Int.{ℤ}
use shigoku.Domain.Types.{ListStatus}
use shigoku.Domain.Enums.{eq_status}
use shigoku.Store.Types.{Result, ok, err, StoreError, ProviderError, ListEntry, MalMirrorRow}
use shigoku.Sync.Types.{inc32, is_401, is_429}

pub data MirrorOutcome : Type 0 where
  completed disabled unauthorized rate_limited : MirrorOutcome

pub record MirrorSummary : Type 0 where
  pub outcome : MirrorOutcome
  pub dirty : ℕ
  pub pushed : ℕ
  pub push_failed : ℕ
  pub push_skipped : ℕ

abbrev pub mirror_terminal : MirrorOutcome → MirrorSummary
mirror_terminal outcome = record {
  outcome = outcome;
  dirty = 0;
  pushed = 0;
  push_failed = 0;
  push_skipped = 0;
}

-- The entry on MAL: status, progress and a score of 0 to 10.
abbrev pub Live : Type 0
Live = ListEntry

pub data MirrorCall : Type 0 where
  listed : MirrorCall
  looked : ℤ → Result ProviderError (Option Live) → MirrorCall
  saved : MalMirrorRow → Option ℕ → Result ProviderError (Unit {0}) → MirrorCall
  marked : MalMirrorRow → Option ℕ → MirrorCall

abbrev pub MirrorLog : Type 0
MirrorLog = List MirrorCall

pub record MirrorEnv : Type 0 where
  pub list_dirty : MirrorLog → Result StoreError (List MalMirrorRow)
  pub fetch_entry : MirrorLog → ℤ → Result ProviderError (Option Live)
  pub save_entry : MirrorLog → MalMirrorRow → Option ℕ → Result ProviderError (Unit {0})
  pub mark_mal_synced : MirrorLog → MalMirrorRow → Option ℕ → Result StoreError (Unit {0})

-- Each snapshot is compared by itself, where there is one.
abbrev pub pair_moved : Option (ListStatus × ℕ) → Live → Bool
pair_moved none live = false
pair_moved (some (s, p)) live = not (eq_status live.status s && live.progress == p)

abbrev pub score_moved : Option ℕ → Live → Bool
score_moved none live = false
score_moved (some score) live = not (live.score == score)

unfoldable pub may_push : Option Live → MalMirrorRow → Bool
may_push none row = true
may_push (some live) row = not (pair_moved row.synced live || score_moved row.synced_score live)

-- A score of 0 is withheld: MAL would remove the user's score for it.
unfoldable pub push_score : ℕ → Option ℕ
push_score score = if score == 0 then none else some score

-- How a row ends: on to the next one, `return summary`, or a store error.
pub data Step : Type 0 where
  next_row : MirrorSummary → MirrorLog → Step
  done : MirrorSummary → MirrorLog → Step
  broke : StoreError → MirrorLog → Step

abbrev pub on_mirror_error : ProviderError → MirrorSummary → MirrorLog → Step
on_mirror_error e s log =
    if is_401 e
    then done (record s { outcome = MirrorOutcome.unauthorized }) log
    else if is_429 e
    then done (record s { outcome = MirrorOutcome.rate_limited }) log
    else next_row (record s { push_failed = inc32 s.push_failed }) log

module _ (env : MirrorEnv) where
  unfoldable pub mark_row : MalMirrorRow → Option ℕ → MirrorSummary → MirrorLog → Step
  mark_row row score s log = elim (env.mark_mal_synced log row score) [
    | ok _ ↦ next_row (record s { pushed = inc32 s.pushed }) (marked row score ∷ log)
    | err e ↦ broke e (marked row score ∷ log)
  ]

  -- What follows the answer to a save, and to a look.
  unfoldable pub after_save :
      MalMirrorRow → Option ℕ → Result ProviderError (Unit {0}) → MirrorSummary → MirrorLog → Step
  after_save row score (ok _) s log = mark_row row score s log
  after_save row score (err e) s log = on_mirror_error e s log

  unfoldable pub save_mirror : MalMirrorRow → MirrorSummary → MirrorLog → Step
  save_mirror row s log =
      let score = push_score row.score in
      let answer = env.save_entry log row score in
      after_save row score answer s (saved row score answer ∷ log)

  unfoldable pub after_look :
      MalMirrorRow → Result ProviderError (Option Live) → MirrorSummary → MirrorLog → Step
  after_look row (ok live) s log =
      if may_push live row
      then save_mirror row s log
      else next_row (record s { push_skipped = inc32 s.push_skipped }) log
  after_look row (err e) s log = on_mirror_error e s log

  unfoldable pub mirror_row : MalMirrorRow → MirrorSummary → MirrorLog → Step
  mirror_row row s log =
      let answer = env.fetch_entry log row.mal_id in
      after_look row answer s (looked row.mal_id answer ∷ log)

  unfoldable pub mirror_rows : List MalMirrorRow → MirrorSummary → MirrorLog → Step
  mirror_rows [] s log = done s log
  mirror_rows (row ∷ rows) s log = elim (mirror_row row s log) [
    | next_row s' log' ↦ mirror_rows rows s' log'
    | done s' log' ↦ done s' log'
    | broke e log' ↦ broke e log'
  ]

  -- `bearer` is the token of the MAL account, if it has a usable one.
  unfoldable pub push_mirror : Option Bytes → Bool → Step
  push_mirror bearer enabled =
      if not enabled then done (mirror_terminal MirrorOutcome.disabled) [] else elim bearer [
        | none ↦ done (mirror_terminal MirrorOutcome.disabled) []
        | some token ↦ elim (env.list_dirty []) [
          | err e ↦ broke e (listed ∷ [])
          | ok rows ↦
              mirror_rows rows
                (record (mirror_terminal MirrorOutcome.completed) { dirty = length rows % 2 ^ 32 })
                (listed ∷ [])
        ]
      ]
