-- ===== src/Store/Plan/Counts.antt =====
-- src/store.cpp, `reconcile_plan_for`: the imports are capped, and no remote-only id is lost.
use shigoku.Store.Providers.{show_key}
use shigoku.Store.Keyed.{find}
use shigoku.Store.Types.{RemoteEntry}
use shigoku.Store.Rows.{Table}
use shigoku.Domain.Types.{Enrichment}
use shigoku.Store.Plan.{
  insert_by_id, sort_by_id, Shares, cap_imports, RemoteCell, partition, make_plan,
  ReconcileCandidate, SyncTracker, seed_id, is_matched, into_share, candidates, import_cap,
  collapse, usable_seed, collect_seeds,
}
use shigoku.Common.{
  List, ℕ, length, Option, keep_if, map, ◌≡◌, take, ◌+◌, ◌≤◌, not, ◌∷◌, suc, arith, drop, [], zero,
  ◌++◌, some, Bool-cases, refl, length-append, none, inl, inr, ◌∙◌, ap,
}
use shigoku.Common.Int.{ℤ}

length-map {ℓ κ} :
    {A : Type ℓ} {B : Type κ} (f : A → B) (xs : List A) → length (map f xs) ≡ length xs
length-map f [] = refl
length-map f (x ∷ xs) = omega (arith, length-map f xs)

module _ {ℓ} {A : Type ℓ} (id_of : A → ℤ) where
  length-insert_by_id : (x : A) (xs : List A) → length (insert_by_id id_of x xs) ≡ suc (length xs)
  unfolding insert_by_id
  length-insert_by_id x [] = refl
  length-insert_by_id x (y ∷ ys) = ground (arith, length-insert_by_id x ys)

  length-sort_by_id : (xs : List A) → length (sort_by_id id_of xs) ≡ length xs
  unfolding sort_by_id
  length-sort_by_id [] = refl
  length-sort_by_id (x ∷ xs) =
      omega (arith, length-insert_by_id x (sort_by_id id_of xs), length-sort_by_id xs)

module _ {ℓ} {A : Type ℓ} where
  length-take : (n : ℕ) (xs : List A) → length (take n xs) ≤ n
  length-take zero xs = omega arith
  length-take (suc n) [] = omega arith
  length-take (suc n) (x ∷ xs) = omega (arith, length-take n xs)

  take-drop : (n : ℕ) (xs : List A) → length (take n xs) + length (drop n xs) ≡ length xs
  take-drop zero xs = omega arith
  take-drop (suc n) [] = omega arith
  take-drop (suc n) (x ∷ xs) = omega (arith, take-drop n xs)

abbrev pub size : Shares → ℕ
size s = length s.imports + length s.unmatched

cap_imports-size :
    (cap : ℕ) (s : Shares)
    → (length (cap_imports cap s).imports ≤ cap) × (size (cap_imports cap s) ≡ size s)
unfolding cap_imports
cap_imports-size cap s =
    let sorted = sort_by_id seed_id s.imports in
    (
      length-take cap sorted,
      omega (
        arith,
        take-drop cap sorted,
        length-sort_by_id seed_id s.imports,
        length-sort_by_id (λ id. id) (s.unmatched ++ map seed_id (drop cap sorted)),
        length-append s.unmatched (map seed_id (drop cap sorted)),
        length-map seed_id (drop cap sorted),
      ),
    )

-- The cells that no library row takes.
abbrev pub remote_only : List ReconcileCandidate → List RemoteCell → List RemoteCell
remote_only cands cells = keep_if (λ c. not (is_matched c.id cands)) cells

share-size :
    (cell : RemoteCell) (seed : Option Enrichment) (s : Shares)
    → size (into_share cell seed s) ≡ suc (size s)
share-size cell none s = omega arith
share-size cell (some seed) s = omega arith

partition-size :
    (tracker : SyncTracker) (cands : List ReconcileCandidate) (seeds : List Enrichment)
    (cells : List RemoteCell)
    → size (partition tracker cands seeds cells) ≡ length (remote_only cands cells)
unfolding partition keep_if
partition-size tracker cands seeds [] = refl
partition-size tracker cands seeds (cell ∷ cells) = elim (Bool-cases (is_matched cell.id cands)) [
  | inl h ↦ rw h (partition-size tracker cands seeds cells)
  | inr h ↦ rw h (
      share-size cell (usable_seed tracker cell.entry.status (find show_key cell.id seeds))
        (partition tracker cands seeds cells)
      ∙ ap suc (partition-size tracker cands seeds cells))
]

-- A plan imports at most 500 shows for AniList and 5000 for MAL, and the imports and the unmatched ids are
-- together as many as the pulled ids that no library row has: none is dropped by the cap.
pub make_plan_shares :
    (tracker : SyncTracker) (rows : Table) (remote : List RemoteEntry)
    → let s = (make_plan tracker rows remote).shares in
      let cands = candidates tracker rows in
      (length s.imports ≤ import_cap tracker)
      × (size s ≡ length (remote_only cands (collapse tracker cands remote [])))
unfolding make_plan
make_plan_shares tracker rows remote =
    let cands = candidates tracker rows in
    let cells = collapse tracker cands remote [] in
    let seeds = collect_seeds tracker cands remote [] in
    let c = cap_imports-size (import_cap tracker) (partition tracker cands seeds cells) in
    (c.0, c.1 ∙ partition-size tracker cands seeds cells)
