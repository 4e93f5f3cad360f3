-- ===== src/Store/Plan.antt =====
-- `Store::reconcile_plan_for` of src/store.cpp: what a pulled list asks of the library. The maps of the
-- source are tables under their keys, in the order of insertion; what is read from them in their own
-- order is sorted by its distinct ids afterwards.
pub mod Second
pub mod Settles
pub mod Kept
pub mod Counts
pub mod Tests
use shigoku.Domain.Enums.{eq_status}
use shigoku.Store.Providers.{show_key}
use shigoku.Store.Merge.{eq_entry, reconcile, merged_of, snapshot_of}
use shigoku.Store.WorkList.{snapshot_entry}
use shigoku.Domain.Types.{Enrichment, ListStatus, watching}
use shigoku.Store.Keyed.{Keyed, upsert, find}
use shigoku.Common.{
  List, Option, Bool, if◌then◌else◌, ℕ, has_value, none, some, ◌||◌, ◌∷◌, false, Bytes, take,
  value_or, map, [], ◌&&◌, true, ◌++◌, ◌*◌, keep_if, ltb, drop, ◌%◌, ◌^◌,
}
use shigoku.Store.Rows.{Row, Table}
use shigoku.Store.Apply.{anilist, mal, SyncTracker, local_entry, SyncPlanRow}
use shigoku.Common.Int.{ℤ, pos, eq_ℤ, eq_ℤ_iff, ltb_ℤ}
use shigoku.Store.Types.{RemoteEntry, ListEntry, StoreError, Result, ok, err}

pub record ReconcileCandidate : Type 0 where
  pub id : ℤ
  pub local : ListEntry
  pub base : Option ListEntry
  pub mal_id : Option ℤ

-- MAL's score snapshot is on its own scale of 0 to 10.
abbrev pub snapshot_base : SyncTracker → Row → Option ListEntry
snapshot_base anilist r = snapshot_entry r.synced_status r.synced_progress r.synced_score
snapshot_base mal r =
    snapshot_entry r.mal_synced_status r.mal_synced_progress
      (some (value_or r.mal_synced_score 0 * 10 % 2 ^ 32))

abbrev pub candidate_of : SyncTracker → Row → ReconcileCandidate
candidate_of tracker r = record {
  id = r.anilist_id;
  local = local_entry r;
  base = snapshot_base tracker r;
  mal_id = r.mal_id;
}

abbrev pub in_library : Row → Bool
in_library r = has_value r.library_added_at

unfoldable pub candidates : SyncTracker → Table → List ReconcileCandidate
candidates tracker rows = map (candidate_of tracker) (keep_if in_library rows)

-- The first library row that carries the MAL id.
unfoldable pub by_mal : ℤ → List ReconcileCandidate → Option ℤ
by_mal m [] = none
by_mal m (c ∷ cands) =
    let rest = by_mal m cands in
    elim c.mal_id [ none ↦ rest | some n ↦ if eq_ℤ n m then some c.id else rest ]

-- The id under which an entry counts.
abbrev pub held_key : List ReconcileCandidate → ℤ → Option ℤ → ℤ
held_key cands id none = id
held_key cands id (some m) = value_or (by_mal m cands) id

abbrev pub seed_mal_id : Option Enrichment → Option ℤ
seed_mal_id none = none
seed_mal_id (some seed) = seed.mal_id

unfoldable pub entry_key : SyncTracker → List ReconcileCandidate → RemoteEntry → ℤ
entry_key anilist cands e = e.anilist_id
entry_key mal cands e = held_key cands e.anilist_id (seed_mal_id e.import_seed)

-- An entry of `remote_map`.
pub record RemoteCell : Type 0 where
  pub id : ℤ
  pub entry : ListEntry
  pub updated_at : ℤ

abbrev pub cell_key : Keyed ℤ RemoteCell
cell_key = record { key = λ c. c.id; eq_key = eq_ℤ; eq_key_iff = eq_ℤ_iff }

abbrev pub cell_of : ℤ → RemoteEntry → RemoteCell
cell_of key e = record {
  id = key;
  entry = record { status = e.status; progress = e.progress; score = e.score };
  updated_at = e.updated_at;
}

-- The order of (updated_at, progress).
unfoldable pub is_later : RemoteCell → RemoteCell → Bool
is_later a b =
    ltb_ℤ b.updated_at a.updated_at
    || eq_ℤ a.updated_at b.updated_at && ltb b.entry.progress a.entry.progress

abbrev pub supersede : RemoteCell → RemoteCell → RemoteCell
supersede new old = record old {
  entry = if is_later new old then new.entry else old.entry;
  updated_at = if is_later new old then new.updated_at else old.updated_at;
}

unfoldable pub collapse :
    SyncTracker → List ReconcileCandidate → List RemoteEntry → List RemoteCell → List RemoteCell
collapse tracker cands [] cells = cells
collapse tracker cands (e ∷ remote) cells =
    let cell = cell_of (entry_key tracker cands e) e in
    collapse tracker cands remote (upsert cell_key cell (supersede cell) cells)

-- The first seed under each key.
abbrev pub keep_seed : ℤ → Option Enrichment → List Enrichment → List Enrichment
keep_seed key none seeds = seeds
keep_seed key (some seed) seeds = upsert show_key (record seed { anilist_id = key }) (λ s. s) seeds

unfoldable pub collect_seeds :
    SyncTracker → List ReconcileCandidate → List RemoteEntry → List Enrichment → List Enrichment
collect_seeds tracker cands [] seeds = seeds
collect_seeds tracker cands (e ∷ remote) seeds =
    collect_seeds tracker cands remote (keep_seed (entry_key tracker cands e) e.import_seed seeds)

-- Nothing is planned where neither the local entry nor the snapshot moves.
abbrev pub same_base : Option ListEntry → ListEntry → Bool
same_base none snapshot = false
same_base (some base) snapshot = eq_entry snapshot base

unfoldable pub plan_entry : ReconcileCandidate → ListEntry → Option SyncPlanRow
plan_entry c remote =
    let r = reconcile c.base c.local remote in
    if eq_entry (merged_of r) c.local && same_base c.base (snapshot_of r)
    then none
    else some (record {
      id = c.id;
      guard = c.local;
      merged = merged_of r;
      snapshot = snapshot_of r;
      conflict = r.conflict;
    })

abbrev pub plan_of : Option RemoteCell → ReconcileCandidate → Option SyncPlanRow
plan_of none c = none
plan_of (some cell) c = plan_entry c cell.entry

abbrev pub push_opt {ℓ} : {A : Type ℓ} → Option A → List A → List A
push_opt none xs = xs
push_opt (some x) xs = x ∷ xs

unfoldable pub plan_rows : List RemoteCell → List ReconcileCandidate → List SyncPlanRow
plan_rows cells [] = []
plan_rows cells (c ∷ cands) =
    push_opt (plan_of (find cell_key c.id cells) c) (plan_rows cells cands)

-- MAL only: the pairs for rows that have no MAL id yet.
abbrev pub pair_of : ℤ → Option ℤ → Option ℤ → Option (ℤ × ℤ)
pair_of id none (some m) = some (id, m)
pair_of id _ _ = none

abbrev pub backfill_of :
    SyncTracker → List Enrichment → Option RemoteCell → ReconcileCandidate → Option (ℤ × ℤ)
backfill_of anilist seeds cell c = none
backfill_of mal seeds none c = none
backfill_of mal seeds (some cell) c = pair_of c.id c.mal_id (seed_mal_id (find show_key c.id seeds))

unfoldable pub backfill_pairs :
    SyncTracker → List Enrichment → List RemoteCell → List ReconcileCandidate → List (ℤ × ℤ)
backfill_pairs tracker seeds cells [] = []
backfill_pairs tracker seeds cells (c ∷ cands) =
    push_opt (backfill_of tracker seeds (find cell_key c.id cells) c)
      (backfill_pairs tracker seeds cells cands)

pub record SyncImportRow : Type 0 where
  pub seed : Enrichment
  pub entry : ListEntry

abbrev is_text : Option Bytes → Bool
is_text none = false
is_text (some []) = false
is_text (some (c ∷ s)) = true

unfoldable pub seed_has_title : Enrichment → Bool
seed_has_title e =
    is_text (some e.title_romaji) || is_text e.title_english || is_text e.title_native

unfoldable pub import_cap : SyncTracker → ℕ
import_cap anilist = 500
import_cap mal = 5000

abbrev pub is_wanted : SyncTracker → ListStatus → Bool
is_wanted mal status = true
is_wanted anilist status = eq_status status watching

-- The seed of an entry that is imported.
abbrev pub usable_seed : SyncTracker → ListStatus → Option Enrichment → Option Enrichment
usable_seed tracker status none = none
usable_seed tracker status (some seed) =
    if is_wanted tracker status && seed_has_title seed then some seed else none

-- The remote-only cells, into imports and ids that are only counted.
pub record Shares : Type 0 where
  pub imports : List SyncImportRow
  pub unmatched : List ℤ

abbrev pub into_share : RemoteCell → Option Enrichment → Shares → Shares
into_share cell none s = record s { unmatched = cell.id ∷ s.unmatched }
into_share cell (some seed) s = record s {
  imports = record { seed = seed; entry = cell.entry } ∷ s.imports;
}

unfoldable pub is_matched : ℤ → List ReconcileCandidate → Bool
is_matched id [] = false
is_matched id (c ∷ cands) = eq_ℤ c.id id || is_matched id cands

unfoldable pub partition :
    SyncTracker → List ReconcileCandidate → List Enrichment → List RemoteCell → Shares
partition tracker cands seeds [] = record { imports = []; unmatched = [] }
partition tracker cands seeds (cell ∷ cells) =
    let rest = partition tracker cands seeds cells in
    if is_matched cell.id cands
    then rest
    else into_share cell (usable_seed tracker cell.entry.status (find show_key cell.id seeds)) rest

-- `std::sort`, by insertion.
module _ {ℓ} {A : Type ℓ} (id_of : A → ℤ) where
  unfoldable pub insert_by_id : A → List A → List A
  insert_by_id x [] = x ∷ []
  insert_by_id x (y ∷ ys) =
      let rest = insert_by_id x ys in if ltb_ℤ (id_of y) (id_of x) then y ∷ rest else x ∷ y ∷ ys

  unfoldable pub sort_by_id : List A → List A
  sort_by_id [] = []
  sort_by_id (x ∷ xs) = insert_by_id x (sort_by_id xs)

abbrev pub seed_id : SyncImportRow → ℤ
seed_id i = i.seed.anilist_id

-- The imports over the cap count as unmatched.
unfoldable pub cap_imports : ℕ → Shares → Shares
cap_imports cap s =
    let sorted = sort_by_id seed_id s.imports in
    record {
      imports = take cap sorted;
      unmatched = sort_by_id (λ id. id) (s.unmatched ++ map seed_id (drop cap sorted));
    }

pub record SyncPlan : Type 0 where
  pub plan : List SyncPlanRow
  pub shares : Shares
  pub mal_backfill : List (ℤ × ℤ)

unfoldable pub make_plan : SyncTracker → Table → List RemoteEntry → SyncPlan
unfolding candidates collapse collect_seeds plan_rows partition cap_imports import_cap
make_plan tracker rows remote =
    let cands = candidates tracker rows in
    let cells = collapse tracker cands remote [] in
    let seeds = collect_seeds tracker cands remote [] in
    record {
      plan = plan_rows cells cands;
      shares = cap_imports (import_cap tracker) (partition tracker cands seeds cells);
      mal_backfill = backfill_pairs tracker seeds cells cands;
    }

-- `fault` is the database's answer to the SELECT.
unfoldable pub reconcile_plan_for :
    SyncTracker → Option StoreError → List RemoteEntry → Table → Result StoreError SyncPlan
reconcile_plan_for tracker none remote rows = ok (make_plan tracker rows remote)
reconcile_plan_for tracker (some e) remote rows = err e
