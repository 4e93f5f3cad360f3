-- ===== src/Sync/Push/Guarded.antt =====
-- src/sync.cpp, `push_dirty`: the calls made for one row, and what has to stand before each of
-- them.
use shigoku.Store.Merge.{eq_entry_iff}
use shigoku.Common.{
  ℕ, suc, ◌≡◌, refl, inl, inr, Bool, true, false, List, [], ◌∷◌, Option, none, some, arith,
  if◌then◌else◌, ◌==◌, Bool-cases,
}
use shigoku.Common.Int.{ℤ}
use shigoku.Domain.Types.{ScoreFormat}
use shigoku.Store.Types.{Result, ok, err, StoreError, ProviderError, ListEntry, SyncRow}
use shigoku.Sync.Types.{slept, fetched, saved, marked, Log, Env, rate_limit_backoff, is_401, is_429}
use shigoku.Sync.Push.{
  State, Flow, go_on, stop, fail, note, on_rate_limit, on_error, on_saved, save_row, may_save,
  guard_row, attempt, contains, row_flow, end_with, stored_score, skip_row, push_row, SyncOutcome,
  push_spacing,
}

-- The call right before a save: the server has no entry for the row, or the row's own snapshot.
abbrev pub Verified : SyncRow → Log → Type 0
Verified row (fetched id (ok none) ∷ log) = id ≡ row.anilist_id
Verified row (fetched id (ok (some live)) ∷ log) = (id ≡ row.anilist_id) × (row.synced ≡ some live)
Verified row _ = ⊥

-- The call right before a snapshot is written: the save of that row, accepted.
abbrev pub Accepted : SyncRow → Log → Type 0
Accepted row (saved r (ok id) ∷ log) = r ≡ row
Accepted row _ = ⊥

abbrev pub SafeLog : List ℤ → Log → Type 0
SafeLog contended [] = Unit {0}
SafeLog contended (saved row answer ∷ log) =
    Verified row log × (contains contended row.anilist_id ≡ false) × SafeLog contended log
SafeLog contended (marked row stored ∷ log) =
    Accepted row log × (contains contended row.anilist_id ≡ false) × SafeLog contended log
SafeLog contended (e ∷ log) = SafeLog contended log

abbrev pub backoffs : Log → ℕ
backoffs [] = 0
backoffs (slept ms ∷ log) = if ms == rate_limit_backoff then suc (backoffs log) else backoffs log
backoffs (e ∷ log) = backoffs log

pub record Inv (contended : List ℤ) (st : State) : Type 0 where
  pub safe : SafeLog contended st.log
  pub once : backoffs st.log ≡ (if st.backed_off then 1 else 0)
  pub held : st.summary.pulled.contended ≡ contended

-- The run ends, and in a state that the predicate holds of.
abbrev pub Ensures : (State → Type 0) → Option Flow → Type 0
Ensures P none = ⊥
Ensures P (some (go_on st)) = P st
Ensures P (some (stop st)) = P st
Ensures P (some (fail e st)) = P st

module _ (contended : List ℤ) (env : Env) (format : ScoreFormat) (row : SyncRow) where
  -- A retry is made only of a state that has just backed off for the first time.
  abbrev Retries : (State → Option Flow) → Bool → Type 0
  Retries retry backed_off =
      (st : State)
      → backed_off ≡ false
      → st.backed_off ≡ true
      → Inv contended st
      → Ensures (Inv contended) (retry st)

  on_rate_limit-Ensures :
      (retry : State → Option Flow) (st : State)
      → Inv contended st
      → Retries retry st.backed_off
      → Ensures (Inv contended) (on_rate_limit retry st)
  unfolding on_rate_limit
  on_rate_limit-Ensures retry st inv again = go st.backed_off refl
    where
      slow : State
      slow = note (slept rate_limit_backoff) (record st { backed_off = true })

      go :
          (b : Bool)
          → st.backed_off ≡ b
          → Ensures
              (Inv contended)
              (if b then some (stop (end_with SyncOutcome.rate_limited st)) else retry slow)
      go true e = record { safe = inv.safe; once = inv.once; held = inv.held }
      go false e =
          again slow e refl
            (record { safe = inv.safe; once = ground (arith, inv.once); held = inv.held })

  on_error-Ensures :
      (retry : State → Option Flow) (e : ProviderError) (st : State)
      → Inv contended st
      → Retries retry st.backed_off
      → Ensures (Inv contended) (on_error retry e st)
  unfolding on_error
  on_error-Ensures retry e st inv again = elim (Bool-cases (is_401 e)) [
    | inl h ↦ rw h (record { safe = inv.safe; once = inv.once; held = inv.held })
    | inr h ↦ elim (Bool-cases (is_429 e)) [
      | inr k ↦ rw (h, k) (record { safe = inv.safe; once = inv.once; held = inv.held })
      | inl k ↦ rw (h, k) (on_rate_limit-Ensures retry st inv again)
    ]
  ]

  on_saved-Ensures :
      (st : State)
      → Inv contended st
      → Accepted row st.log
      → contains contended row.anilist_id ≡ false
      → Ensures (Inv contended) (some (on_saved env format row st))
  unfolding on_saved
  on_saved-Ensures st inv accepted free = go (env.mark_synced st.log row stored)
    where
      stored : ℕ
      stored = stored_score row.score format

      go :
          (a : Result StoreError (Unit {0}))
          → Ensures (Inv contended) (
              some (elim a [
                | ok _ ↦ go_on (push_row (note (marked row stored) st))
                | err e ↦ fail e (note (marked row stored) st)
              ]))
      go (ok _) = record { safe = (accepted, free, inv.safe); once = inv.once; held = inv.held }
      go (err e) = record { safe = (accepted, free, inv.safe); once = inv.once; held = inv.held }

  may_save-Verified :
      (log : Log) (live synced : Option ListEntry)
      → row.synced ≡ synced
      → may_save live synced ≡ true
      → Verified row (fetched row.anilist_id (ok live) ∷ log)
  unfolding may_save
  may_save-Verified log none synced e h = refl
  may_save-Verified log (some live) none e h = cc
  may_save-Verified log (some live) (some synced) e h =
      (refl, ground (arith, eq_entry_iff live synced))

  -- A save is made only where the call before it has verified the row.
  save_row-Ensures :
      (retry : State → Option Flow) (st : State)
      → Inv contended st
      → Verified row st.log
      → contains contended row.anilist_id ≡ false
      → Retries retry st.backed_off
      → Ensures (Inv contended) (save_row env format retry row st)
  unfolding save_row
  save_row-Ensures retry st inv verified free again =
      let answer = env.save_entry st.log row in go (after answer) answer refl
    where
      after : Result ProviderError ℤ → State
      after a = note (saved row a) st

      after-Inv : (a : Result ProviderError ℤ) → Inv contended (after a)
      after-Inv a = record { safe = (verified, free, inv.safe); once = inv.once; held = inv.held }

      accepted : (id : ℤ) → Ensures (Inv contended) (some (on_saved env format row (after (ok id))))
      accepted id = on_saved-Ensures (after (ok id)) (after-Inv (ok id)) refl free

      go :
          (s : State) (a : Result ProviderError ℤ)
          → s ≡ after a
          → Ensures
              (Inv contended)
              (elim a [ ok _ ↦ some (on_saved env format row s) | err e ↦ on_error retry e s ])
      go s (ok id) q = rw q (accepted id)
      go s (err e) q = rw q (on_error-Ensures retry e (after (err e)) (after-Inv (err e)) again)

  guard_row-Ensures :
      (retry : State → Option Flow) (st : State)
      → Inv contended st
      → contains contended row.anilist_id ≡ false
      → Retries retry st.backed_off
      → Ensures (Inv contended) (guard_row env format retry row st)
  unfolding guard_row
  guard_row-Ensures retry st inv free again =
      let answer = env.fetch_entry st.log row.anilist_id in go (after answer) answer refl
    where
      after : Result ProviderError (Option ListEntry) → State
      after a = note (fetched row.anilist_id a) st

      after-Inv : (a : Result ProviderError (Option ListEntry)) → Inv contended (after a)
      after-Inv a = record { safe = inv.safe; once = inv.once; held = inv.held }

      verified :
          (live : Option ListEntry)
          → may_save live row.synced ≡ true
          → Verified row (after (ok live)).log
      verified live h = may_save-Verified st.log live row.synced refl h

      go :
          (s : State) (a : Result ProviderError (Option ListEntry))
          → s ≡ after a
          → Ensures (Inv contended) (elim a [
            | ok live ↦
                if may_save live row.synced
                then save_row env format retry row s
                else some (go_on (skip_row s))
            | err e ↦ on_error retry e s
          ])
      go s (ok live) q = elim (Bool-cases (may_save live row.synced)) [
        | inl h ↦
            rw (q, h)
              (save_row-Ensures retry (after (ok live)) (after-Inv (ok live)) (verified live h) free
                again)
        | inr h ↦ rw (q, h) (record { safe = inv.safe; once = inv.once; held = inv.held })
      ]
      go s (err e) q = rw q (on_error-Ensures retry e (after (err e)) (after-Inv (err e)) again)

  -- Two rounds of the inner loop are enough, and one where the run has backed off already.
  attempt-Ensures :
      (st : State)
      → Inv contended st
      → contains contended row.anilist_id ≡ false
      → Ensures (Inv contended) (attempt 2 env format row st)
  unfolding attempt
  attempt-Ensures st inv free =
      guard_row-Ensures (attempt 1 env format row) st inv free
        λ s _ b i. guard_row-Ensures (attempt 0 env format row) s i free λ s' n _ _. absurd (cc)

  pub row_flow-Ensures :
      (st : State)
      → Inv contended st
      → Ensures (Inv contended) (row_flow env format contended row st)
  unfolding row_flow
  row_flow-Ensures st inv = elim (Bool-cases (contains contended row.anilist_id)) [
    | inl h ↦ rw h (record { safe = inv.safe; once = inv.once; held = inv.held })
    | inr h ↦ rw h (attempt-Ensures _ (spaced st.called) h)
  ]
    where
      spaced :
          (called : Bool)
          → Inv contended
              (record (if called then note (slept push_spacing) st else st) { called = true })
      spaced true = record { safe = inv.safe; once = inv.once; held = inv.held }
      spaced false = record { safe = inv.safe; once = inv.once; held = inv.held }
