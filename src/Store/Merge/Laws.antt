-- ===== src/Store/Merge/Laws.antt =====
-- src/store.cpp, the three-way merge: its laws.
use shigoku.Common.{ℕ, ◌≤◌, ◌≡◌, ◌≢◌, refl, ◌⊎◌, false, Option, none, some, arith}
use shigoku.Store.Types.{ListEntry}
use shigoku.Store.Merge.{
  status_equality, number_equality, merge_progress, eq_entry_iff, reconcile, merged_of, snapshot_of,
  next_snapshot, keep_local, take_remote,
}

snapshot-remote :
    (base : Option ListEntry) (remote : ListEntry) → next_snapshot base remote ≡ remote
snapshot-remote none remote = refl
snapshot-remote (some base) remote = ground (arith, eq_entry_iff base remote)

merge_progress-keep : (base local : ℕ) → merge_progress base local base ≡ local
unfolding merge_progress
merge_progress-keep base local = ground arith

merge_progress-take : (base remote : ℕ) → merge_progress base base remote ≡ remote
unfolding merge_progress
merge_progress-take base remote = ground arith

snapshot_of-remote :
    (base : Option ListEntry) (local remote : ListEntry)
    → snapshot_of (reconcile base local remote) ≡ remote
unfolding reconcile
snapshot_of-remote base local remote = snapshot-remote base remote

keeps_local :
    (base local : ListEntry)
    → (merged_of (reconcile (some base) local base) ≡ local)
      × ((reconcile (some base) local base).conflict ≡ false)
unfolding reconcile
keeps_local base local = ground (
  arith,
  keep_local base.status local.status,
  keep_local base.score local.score,
  merge_progress-keep base.progress local.progress,
)

takes_remote :
    (base remote : ListEntry)
    → (merged_of (reconcile (some base) base remote) ≡ remote)
      × ((reconcile (some base) base remote).conflict ≡ false)
unfolding reconcile
takes_remote base remote = ground (
  arith,
  take_remote base.status remote.status,
  take_remote base.score remote.score,
  merge_progress-take base.progress remote.progress,
)

-- A local entry that has not moved since the last snapshot takes the remote entry whole, and a local
-- entry that has moved is kept against a remote entry that has not; neither is a conflict, and in
-- every case the snapshot becomes the remote entry.
pub reconcile-one_side :
    (base : ListEntry) (local remote : ListEntry)
    → (merged_of (reconcile (some base) base remote) ≡ remote)
      × ((reconcile (some base) base remote).conflict ≡ false)
      × (merged_of (reconcile (some base) local base) ≡ local)
      × ((reconcile (some base) local base).conflict ≡ false)
      × (snapshot_of (reconcile (some base) local remote) ≡ remote)
reconcile-one_side base local remote =
    let took = takes_remote base remote in
    let kept = keeps_local base local in
    (took.0, took.1, kept.0, kept.1, snapshot_of-remote (some base) local remote)

-- Reconciling again with nothing changed on the server changes nothing: the merged entry stays, the
-- snapshot stays, and no conflict is raised.
pub reconcile-twice :
    (base : Option ListEntry) (local remote : ListEntry)
    → let r = reconcile base local remote in
      let again = reconcile (some (snapshot_of r)) (merged_of r) remote in
      (merged_of again ≡ merged_of r)
      × (snapshot_of again ≡ snapshot_of r)
      × (again.conflict ≡ false)
reconcile-twice base local remote =
    let r = reconcile base local remote in
    let settled = snapshot_of-remote base local remote in
    let kept = keeps_local remote (merged_of r) in
    rw settled (kept.0, snapshot_of-remote (some remote) (merged_of r) remote, kept.1)

-- When both progress counts moved, the merged count is the larger; it is never below both.
pub merge_progress_bounds :
    (base local remote : ℕ)
    → (local ≢ base
        → remote ≢ base
        → (local ≤ merge_progress base local remote) × (remote ≤ merge_progress base local remote))
      × ((merge_progress base local remote ≡ local) ⊎ (merge_progress base local remote ≡ remote))
unfolding merge_progress
merge_progress_bounds base local remote = (λ h k. ground arith, ground arith)
