-- ===== src/Store/WorkList/Laws.antt =====
-- `Store::list_dirty_for_sync` of src/store.cpp: the content and the order of the push work list.
use shigoku.Domain.Enums.{eq_status_iff}
use shigoku.Domain.Types.{ListStatus}
use shigoku.Common.Int.{ℤ, ◌≤ℤ◌, ◌<ℤ◌, ltb_ℤ, eq_ℤ, eq_ℤ_iff}
use mathlib.Core.List.{Perm}
use mathlib.Core.List.Perm
use mathlib.Core.Path.{subst}
use shigoku.Common.{
  ◌≡◌, refl, Bool, true, false, [], ◌∷◌, none, arith, keep_if, map, Bool-cases, inr, inl, sym,
  Option, ◌⊎◌, some, ◌≢◌, ◌↔◌, value_or, ℕ, Option-cases, ◌||◌, ap, not, ◌==◌,
}
use shigoku.Store.Types.{ok}
use shigoku.Store.Rows.{Row, Table, score_of}
use shigoku.Store.WorkList.{
  is_dirty, goes_before, insert_row, order_by, to_sync_row, list_dirty_for_sync, pos, later,
  status_moved, number_moved,
}

module _ (before : Row → Row → Bool) where
  -- No row goes before the one in front of it.
  abbrev pub IsOrdered : Table → Type 0
  IsOrdered [] = Unit {0}
  IsOrdered (r ∷ []) = Unit {0}
  IsOrdered (r ∷ s ∷ rows) = (before s r ≡ false) × IsOrdered (s ∷ rows)

  insert_row-Perm : (r : Row) (rows : Table) → Perm (insert_row before r rows) (r ∷ rows)
  unfolding insert_row
  insert_row-Perm r [] = Perm.refl (r ∷ [])
  insert_row-Perm r (s ∷ rows) = elim (Bool-cases (before s r)) [
    | inr h ↦ rw h (Perm.refl (r ∷ s ∷ rows))
    | inl h ↦ rw h (Perm.trans (Perm.cons s (insert_row-Perm r rows)) (Perm.swap r s rows))
  ]

  order_by-Perm : (rows : Table) → Perm (order_by before rows) rows
  unfolding order_by
  order_by-Perm [] = Perm.refl []
  order_by-Perm (r ∷ rows) =
      Perm.trans (insert_row-Perm r (order_by before rows)) (Perm.cons r (order_by-Perm rows))

  insert_row-later :
      (r s : Row) (rows : Table)
      → before s r ≡ true
      → insert_row before r (s ∷ rows) ≡ s ∷ insert_row before r rows
  unfolding insert_row
  insert_row-later r s rows h = rw h refl

  insert_row-here :
      (r s : Row) (rows : Table)
      → before s r ≡ false
      → insert_row before r (s ∷ rows) ≡ r ∷ s ∷ rows
  unfolding insert_row
  insert_row-here r s rows h = rw h refl

  module _ (asym : (a b : Row) → before a b ≡ true → before b a ≡ false) where
    insert_row-IsOrdered :
        (r : Row) (rows : Table) → IsOrdered rows → IsOrdered (insert_row before r rows)
    unfolding insert_row
    insert_row-IsOrdered r [] o = tt
    insert_row-IsOrdered r (s ∷ []) o = elim (Bool-cases (before s r)) [
      | inl h ↦ rw h (asym s r h, tt)
      | inr h ↦ rw h (h, tt)
    ]
    insert_row-IsOrdered r (s ∷ t ∷ rows) o = elim (Bool-cases (before s r)) [
      | inr h ↦ rw (insert_row-here r s (t ∷ rows) h) (h, o)
      | inl h ↦
          let rest : IsOrdered (insert_row before r (t ∷ rows)) =
            insert_row-IsOrdered r (t ∷ rows) o.1 in
          rw (insert_row-later r s (t ∷ rows) h) (elim (Bool-cases (before t r)) [
            | inl k ↦
                let e = insert_row-later r t rows k in
                subst (λ l. IsOrdered (s ∷ l)) (sym e) (o.0, subst IsOrdered e rest)
            | inr k ↦
                let e = insert_row-here r t rows k in
                subst (λ l. IsOrdered (s ∷ l)) (sym e) (asym s r h, subst IsOrdered e rest)
          ])
    ]

    order_by-IsOrdered : (rows : Table) → IsOrdered (order_by before rows)
    unfolding order_by
    order_by-IsOrdered [] = tt
    order_by-IsOrdered (r ∷ rows) =
        insert_row-IsOrdered r (order_by before rows) (order_by-IsOrdered rows)

goes_before-asym : (a b : Row) → goes_before a b ≡ true → goes_before b a ≡ false
unfolding goes_before
goes_before-asym a b h = ground arith

-- The first instant is the later; none is the earliest.
abbrev pub IsNewer : Option ℤ → Option ℤ → Type 0
IsNewer none b = ⊥
IsNewer (some a) none = Unit {0}
IsNewer (some a) (some b) = b <ℤ a

-- Row `a` may stand in front of row `b`: it was watched later; or both were watched at the same time, or
-- never, and `a` was added later; or at the same time too, and its id is not greater.
abbrev pub StandsBefore : Row → Row → Type 0
StandsBefore a b =
    IsNewer a.last_watched_at b.last_watched_at
    ⊎ ((a.last_watched_at ≡ b.last_watched_at)
        × (IsNewer a.library_added_at b.library_added_at
            ⊎ ((a.library_added_at ≡ b.library_added_at) × (a.anilist_id ≤ℤ b.anilist_id))))

-- Each row may stand in front of the next.
abbrev pub InOrder : Table → Type 0
InOrder [] = Unit {0}
InOrder (r ∷ []) = Unit {0}
InOrder (r ∷ s ∷ rows) = StandsBefore r s × InOrder (s ∷ rows)

later-cases :
    (a b : Option ℤ)
    → ((later a b ≡ true) × IsNewer a b)
      ⊎ ((later b a ≡ true) × IsNewer b a)
      ⊎ ((later a b ≡ false) × (later b a ≡ false) × (a ≡ b))
later-cases none none = inr (inr (refl, refl, refl))
later-cases (some a) none = inl (refl, tt)
later-cases none (some b) = inr (inl (refl, tt))
later-cases (some a) (some b) = elim (Bool-cases (ltb_ℤ b a)) [
  | inl x ↦ inl (x, ground arith)
  | inr x ↦ elim (Bool-cases (ltb_ℤ a b)) [
    | inl y ↦ inr (inl (y, ground arith))
    | inr y ↦
        let same : eq_ℤ a b ≡ true = ground arith in
        inr (inr (x, y, ap some ((eq_ℤ_iff a b).0 same)))
  ]
]

goes_before-StandsBefore : (r s : Row) → goes_before s r ≡ false → StandsBefore r s
unfolding goes_before
goes_before-StandsBefore r s h = elim (later-cases r.last_watched_at s.last_watched_at) [
  | inl (_, newer) ↦ inl newer
  | inr (inl (older, _)) ↦ absurd (ground arith)
  | inr (inr (x, y, same)) ↦ inr (
    same,
    elim (later-cases r.library_added_at s.library_added_at) [
      | inl (_, newer) ↦ inl newer
      | inr (inl (older, _)) ↦ absurd (ground arith)
      | inr (inr (u, v, same_too)) ↦ inr (same_too, ground arith)
    ],
  )
]

IsOrdered-InOrder : (rows : Table) → IsOrdered goes_before rows → InOrder rows
IsOrdered-InOrder [] o = tt
IsOrdered-InOrder (r ∷ []) o = tt
IsOrdered-InOrder (r ∷ s ∷ rows) o =
    (goes_before-StandsBefore r s o.0, IsOrdered-InOrder (s ∷ rows) o.1)

-- AniList holds what the library does, as far as the snapshot tells.
abbrev pub IsSynced : Row → Type 0
IsSynced r =
    (r.synced_status ≡ some r.list_status)
    × (r.synced_progress ≡ some r.progress)
    × (value_or r.synced_score 0 ≡ score_of r)

-- A row is to be pushed when it is in the library, has an AniList id and is not synced.
abbrev pub IsUnpushed : Row → Type 0
IsUnpushed r = (r.library_added_at ≢ none) × (pos 0 <ℤ r.anilist_id) × ¬ IsSynced r

abbrev moved : Row → Bool
moved r =
    status_moved r.synced_status r.list_status
    || (number_moved r.synced_progress r.progress || not (value_or r.synced_score 0 == score_of r))

status_moved_iff :
    (o : Option ListStatus) (s : ListStatus) → (status_moved o s ≡ false) ↔ (o ≡ some s)
status_moved_iff none s = (λ h. absurd (cc), λ h. absurd (cc))
status_moved_iff (some t) s = (
  λ h. ap some ((eq_status_iff t s).0 (ground arith)),
  λ h. let same : t ≡ s = cc in ground (arith, (eq_status_iff t s).1 same),
)

number_moved_iff : (o : Option ℕ) (n : ℕ) → (number_moved o n ≡ false) ↔ (o ≡ some n)
number_moved_iff none n = (λ h. absurd (cc), λ h. absurd (cc))
number_moved_iff (some m) n =
    (λ h. ap some (ground arith), λ h. let same : m ≡ n = cc in ground arith)

moved_iff : (r : Row) → (moved r ≡ false) ↔ IsSynced r
moved_iff r =
    let status = status_moved_iff r.synced_status r.list_status in
    let number = number_moved_iff r.synced_progress r.progress in
    (
      λ h. (status.0 (ground arith), number.0 (ground arith), ground arith),
      λ s. ground (arith, status.1 s.0, number.1 s.1, s.2),
    )

is_dirty_lem : (r : Row) → (is_dirty r ≡ true) ↔ IsUnpushed r
unfolding is_dirty
is_dirty_lem r = elim (Option-cases r.library_added_at) [
  | inl missing ↦ (λ h. absurd (ground arith), λ u. absurd (u.0 missing))
  | inr (at, held) ↦ elim (Bool-cases (moved r)) [
    | inr settled ↦ (λ h. absurd (ground arith), λ u. absurd (u.2 ((moved_iff r).0 settled)))
    | inl dirty ↦ (
      λ h. (λ n. absurd (cc (n, held)), ground arith, λ s. absurd (cc (dirty, (moved_iff r).1 s))),
      λ u. ground (arith, u.1),
    )
  ]
]

-- The push work list is made of rows of the table, each once, and of exactly those that are in the
-- library, have an AniList id, and differ in status, progress or score from their snapshot. They
-- stand in order: the last watched first, rows never watched at the end, then the last added, then
-- the smaller id.
pub list_dirty_for_sync-Perm :
    (rows : Table)
    → (listed : Table) × (list_dirty_for_sync none rows ≡ ok (map to_sync_row listed))
      × Perm listed (keep_if is_dirty rows)
      × ((r : Row) → (is_dirty r ≡ true) ↔ IsUnpushed r)
      × InOrder listed
unfolding list_dirty_for_sync
list_dirty_for_sync-Perm rows =
    let dirty = keep_if is_dirty rows in
    (
      order_by goes_before dirty,
      refl,
      order_by-Perm goes_before dirty,
      is_dirty_lem,
      IsOrdered-InOrder (order_by goes_before dirty)
          (order_by-IsOrdered goes_before goes_before-asym dirty),
    )
