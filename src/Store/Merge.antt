-- ===== src/Store/Merge.antt =====
-- `store_detail::merge_local_wins`, `merge_progress` and `reconcile` of src/store.cpp: the three-way
-- merge of a list entry.
pub mod Laws
use shigoku.Store.Types.{ListEntry}
use shigoku.Common.{
  none, ℕ, ◌≡◌, ◌≢◌, ◌↔◌, Bool, true, false, not, ◌&&◌, arith, if◌then◌else◌, ==_iff, ◌==◌, max,
  Option, some, value_or, ◌||◌,
}
use shigoku.Domain.Types.{ListStatus, planning}
use shigoku.Domain.Enums.{eq_status, eq_status_iff}

-- Equality of an instance of the template's type, with the law that makes it one.
pub record Equality (T : Type 0) : Type 0 where
  pub eq : T → T → Bool
  pub eq_iff : (a b : T) → (eq a b ≡ true) ↔ (a ≡ b)

instance abbrev pub status_equality : Equality ListStatus
status_equality = record { eq = eq_status; eq_iff = eq_status_iff }

instance abbrev pub number_equality : Equality ℕ
number_equality = record { eq = ◌==◌; eq_iff = ==_iff }

module _ {T : Type 0} ⦃e : Equality T⦄ where
  -- The merged value, and whether both sides moved and disagree.
  unfoldable pub merge_local_wins : T → T → T → T × Bool
  merge_local_wins base local remote =
      let local_moved = not (e.eq local base) in
      let remote_moved = not (e.eq remote base) in
      if not local_moved && remote_moved
      then (remote, false)
      else if local_moved && not remote_moved
      then (local, false)
      else if local_moved && remote_moved
      then (local, not (e.eq local remote))
      else (base, false)

  -- An untouched remote side leaves the local one, and the other way round.
  pub keep_local : (base local : T) → merge_local_wins base local base ≡ (local, false)
  unfolding merge_local_wins
  keep_local base local = ground (arith, e.eq_iff local base, e.eq_iff base base)

  pub take_remote : (base remote : T) → merge_local_wins base base remote ≡ (remote, false)
  unfolding merge_local_wins
  take_remote base remote = ground (arith, e.eq_iff remote base, e.eq_iff base base)

  -- What a three-way merge owes its sides: an untouched side takes the other's value, agreeing sides
  -- keep theirs, and a conflict is flagged exactly when both sides moved, and differ.
  pub merge_local_wins_lem :
      (base local remote : T)
      → (local ≡ base → (merge_local_wins base local remote).0 ≡ remote)
        × (local ≢ base → (merge_local_wins base local remote).0 ≡ local)
        × (((merge_local_wins base local remote).1 ≡ true)
            ↔ ((local ≢ base) × (remote ≢ base) × (local ≢ remote)))
  unfolding merge_local_wins
  merge_local_wins_lem base local remote =
      let l = e.eq_iff local base in
      let r = e.eq_iff remote base in
      let b = e.eq_iff local remote in
      (
        λ h. ground (arith, l, r, b),
        λ h. ground (arith, l, r, b),
        (λ h. ground (arith, l, r, b), λ h. ground (arith, l, r, b)),
      )

unfoldable pub merge_progress : ℕ → ℕ → ℕ → ℕ
merge_progress base local remote =
    let local_moved = not (local == base) in
    let remote_moved = not (remote == base) in
    if not local_moved && remote_moved
    then remote
    else if local_moved && not remote_moved
    then local
    else max local remote

unfoldable pub eq_entry : ListEntry → ListEntry → Bool
eq_entry a b = eq_status a.status b.status && (a.progress == b.progress && a.score == b.score)

pub eq_entry_iff : (a b : ListEntry) → (eq_entry a b ≡ true) ↔ (a ≡ b)
unfolding eq_entry
eq_entry_iff a b = (
  λ h. ground (arith, eq_status_iff a.status b.status),
  λ h. ground (arith, eq_status_iff a.status b.status),
)

pub record Reconciled : Type 0 where
  pub status : ListStatus
  pub progress : ℕ
  pub score : ℕ
  pub snapshot_status : ListStatus
  pub snapshot_progress : ℕ
  pub snapshot_score : ℕ
  pub conflict : Bool

abbrev pub empty_entry : ListEntry
empty_entry = record { status = planning; progress = 0; score = 0 }

-- `(base.has_value() && *base == remote) ? *base : remote`.
abbrev pub next_snapshot : Option ListEntry → ListEntry → ListEntry
next_snapshot none remote = remote
next_snapshot (some base) remote = if eq_entry base remote then base else remote

unfoldable pub reconcile : Option ListEntry → ListEntry → ListEntry → Reconciled
unfolding merge_local_wins merge_progress eq_entry
reconcile base local remote =
    let eff_base = value_or base empty_entry in
    let status = merge_local_wins eff_base.status local.status remote.status in
    let score = merge_local_wins eff_base.score local.score remote.score in
    let snapshot = next_snapshot base remote in
    record {
      status = status.0;
      progress = merge_progress eff_base.progress local.progress remote.progress;
      score = score.0;
      snapshot_status = snapshot.status;
      snapshot_progress = snapshot.progress;
      snapshot_score = snapshot.score;
      conflict = status.1 || score.1;
    }

abbrev pub merged_of : Reconciled → ListEntry
merged_of r = record { status = r.status; progress = r.progress; score = r.score }

abbrev pub snapshot_of : Reconciled → ListEntry
snapshot_of r = record {
  status = r.snapshot_status;
  progress = r.snapshot_progress;
  score = r.snapshot_score;
}
