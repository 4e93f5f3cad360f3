-- ===== src/Store/Plan/Kept.antt =====
-- src/store.cpp, `reconcile_plan_for`: which of several entries for one show counts.
use shigoku.Store.Types.{RemoteEntry}
use shigoku.Store.Keyed.{find, upsert}
use mathlib.Core.Path.{subst}
use shigoku.Store.Keyed.Laws.{find-upsert_self, find-upsert_other, written, some_inj}
use shigoku.Common.{
  ◌≡◌, false, arith, some, Bool-cases, ◌∷◌, ℕ, inl, [], Option-cases, get_elem?, inr, ◌∙◌, refl, ap,
  suc, zero, List,
}
use shigoku.Store.Apply.{SyncTracker}
use shigoku.Store.Plan.{
  is_later, RemoteCell, supersede, ReconcileCandidate, cell_key, collapse, cell_of, entry_key,
}
use shigoku.Common.Int.{ℤ, eq_ℤ, eq_ℤ_iff}

is_later_refl : (a : RemoteCell) → is_later a a ≡ false
unfolding is_later
is_later_refl a = ground arith

is_later_trans :
    (a b c : RemoteCell) → is_later a b ≡ false → is_later b c ≡ false → is_later a c ≡ false
unfolding is_later
is_later_trans a b c h g = ground (
  arith,
  eq_ℤ_iff a.updated_at b.updated_at,
  eq_ℤ_iff b.updated_at c.updated_at,
  eq_ℤ_iff a.updated_at c.updated_at,
)

-- The survivor is as late as both.
supersede-new : (new old : RemoteCell) → is_later new (supersede new old) ≡ false
unfolding is_later
supersede-new new old = ground arith

supersede-old : (new old : RemoteCell) → is_later old (supersede new old) ≡ false
unfolding is_later
supersede-old new old = ground arith

-- A cell under the key that no entry so far is later than.
abbrev Late : ℤ → RemoteCell → List RemoteCell → Type 0
Late key a cells = (c : RemoteCell) × (find cell_key key cells ≡ some c) × (is_later a c ≡ false)

written-Late :
    (key : ℤ) (a new : RemoteCell) (cells : List RemoteCell)
    → new.id ≡ key
    → Late key a cells
    → Late key a (upsert cell_key new (supersede new) cells)
written-Late key a new cells e (c, f, l) = (
  supersede new c,
  subst (λ k. find cell_key k (upsert cell_key new (supersede new) cells) ≡ some (supersede new c))
      e
      (find-upsert_self cell_key new (supersede new) (λ r. refl) cells
        ∙ ap (λ o. some (written cell_key new (supersede new) (λ r. refl) o))
            (ap (λ k. find cell_key k cells) e ∙ f)),
  is_later_trans a c (supersede new c) l (supersede-old new c),
)

module _ (tracker : SyncTracker) (cands : List ReconcileCandidate) where
  abbrev put : RemoteEntry → List RemoteCell → List RemoteCell
  put e cells =
      let cell = cell_of (entry_key tracker cands e) e in
      upsert cell_key cell (supersede cell) cells

  put-Late :
      (key : ℤ) (a : RemoteCell) (e : RemoteEntry) (cells : List RemoteCell)
      → Late key a cells
      → Late key a (put e cells)
  put-Late key a e cells (c, f, l) = elim (Bool-cases (eq_ℤ (entry_key tracker cands e) key)) [
    | inl h ↦
        written-Late key a (cell_of (entry_key tracker cands e) e) cells ((eq_ℤ_iff _ _).0 h)
          (c, f, l)
    | inr h ↦ (
      c,
      find-upsert_other cell_key (cell_of (entry_key tracker cands e) e) _ (λ r. refl) key cells
            (λ q. cc (h, (eq_ℤ_iff (entry_key tracker cands e) key).1 q))
          ∙ f,
      l,
    )
  ]

  collapse-Late :
      (key : ℤ) (a : RemoteCell) (remote : List RemoteEntry) (cells : List RemoteCell)
      → Late key a cells
      → Late key a (collapse tracker cands remote cells)
  unfolding collapse
  collapse-Late key a [] cells late = late
  collapse-Late key a (e ∷ remote) cells late =
      collapse-Late key a remote (put e cells) (put-Late key a e cells late)

  -- Right after its own turn an entry is not later than the cell of its key.
  put_own :
      (e : RemoteEntry) (cells : List RemoteCell)
      → Late (entry_key tracker cands e) (cell_of (entry_key tracker cands e) e) (put e cells)
  put_own e cells =
      let cell = cell_of (entry_key tracker cands e) e in
      elim (Option-cases (find cell_key cell.id cells)) [
        | inl n ↦ (
          cell,
          find-upsert_self cell_key cell (supersede cell) (λ r. refl) cells
              ∙ ap (λ o. some (written cell_key cell (supersede cell) (λ r. refl) o)) n,
          is_later_refl cell,
        )
        | inr (c, f) ↦ (
          supersede cell c,
          find-upsert_self cell_key cell (supersede cell) (λ r. refl) cells
              ∙ ap (λ o. some (written cell_key cell (supersede cell) (λ r. refl) o)) f,
          supersede-new cell c,
        )
      ]

  collapse-latest_from :
      (remote : List RemoteEntry) (cells : List RemoteCell) (i : ℕ) (e : RemoteEntry)
      → get_elem? remote i ≡ some e
      → Late
          (entry_key tracker cands e)
          (cell_of (entry_key tracker cands e) e)
          (collapse tracker cands remote cells)
  unfolding collapse
  collapse-latest_from [] cells i e h = absurd (cc)
  collapse-latest_from (x ∷ remote) cells zero e h =
      subst
        (λ e.
          Late (entry_key tracker cands e) (cell_of (entry_key tracker cands e) e)
            (collapse tracker cands remote (put x cells)))
        (some_inj h) (collapse-Late _ _ remote (put x cells) (put_own x cells))
  collapse-latest_from (x ∷ remote) cells (suc i) e h =
      collapse-latest_from remote (put x cells) i e h

-- Every pulled entry is represented by an entry under its key that is no earlier: none that has a greater
-- (updated_at, progress) is lost to another.
pub collapse-latest :
    (tracker : SyncTracker) (cands : List ReconcileCandidate) (remote : List RemoteEntry) (i : ℕ)
    (e : RemoteEntry)
    → get_elem? remote i ≡ some e
    → (c : RemoteCell) × (find cell_key
          (entry_key tracker cands e)
          (collapse tracker cands remote [])
        ≡ some c)
      × (is_later (cell_of (entry_key tracker cands e) e) c ≡ false)
collapse-latest tracker cands remote i e h = collapse-latest_from tracker cands remote [] i e h
