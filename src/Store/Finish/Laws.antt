-- ===== src/Store/Finish/Laws.antt =====
-- src/store.cpp: what a finished play does to the row of its show.
use shigoku.Store.Apply.{any_row}
use shigoku.Domain.Types.{ListStatus}
use shigoku.Store.Types.{StoreError, Result}
use shigoku.Store.Providers.{Database}
use shigoku.Store.Keyed.Laws.{find-hit, some_inj, find-miss}
use shigoku.Common.{
  has_value, ◌∷◌, ◌≤◌, ◌+◌, refl, some, [], ◌⊎◌, max, true, Bool, false, inl, Bool-cases, none, inr,
  arith, ◌==◌, ap, ◌∙◌, if◌then◌else◌, sym, ℕ, ◌≡◌,
}
use shigoku.Store.Finish.{
  Reals, upsert_progress, finish_progress, Option, engaged, Play, record_finish, PlayTables, err,
  finish_status, bump_engagement, or_left, finish_row, ok, natural_end, then_commit, unless_fault,
  all_finite, play_counts,
}
use shigoku.Store.Rows.{status_row, Table, Row, coalesce, has_id}
use shigoku.Store.Keyed.{find}
use shigoku.Store.Rows.{update_where}
use shigoku.Common.Int.{ℤ, eq_ℤ}
use shigoku.Store.Plan.Second.{row_key}

-- An UPDATE of one row, seen by id.
find-update_where :
    (id : ℤ) (write : Row → Row) (rows : Table)
    → ((r : Row) → (write r).anilist_id ≡ r.anilist_id)
    → (r : Row) → find row_key id rows ≡ some r
    → find row_key id (update_where (has_id id) write rows) ≡ some (write r)
unfolding find update_where
find-update_where id write [] keeps r h = absurd (cc)
find-update_where id write (s ∷ rows) keeps r h = elim (Bool-cases (eq_ℤ s.anilist_id id)) [
  | inl e ↦ rw e (
      find-hit row_key id (write s) _ (rw (keeps s) e)
      ∙ ap (λ r. some (write r)) (some_inj (sym (find-hit row_key id s rows e) ∙ h)))
  | inr e ↦ rw e (
      find-miss row_key id s _ e
      ∙ find-update_where id write rows keeps r (sym (find-miss row_key id s rows e) ∙ h))
]

status_row-find : (id : ℤ) (rows : Table) → status_row id rows ≡ find row_key id rows
unfolding status_row find
status_row-find id [] = refl
status_row-find id (r ∷ rows) = rw (status_row-find id rows) refl

module _ (n : Reals) where
  guarded :
      (c : Bool) (constraint : StoreError) (t u : PlayTables n)
      → u.shows ≡ t.shows
      → ((e : StoreError) × ((if c then ok u else err constraint) ≡ err e))
        ⊎ ((t' : PlayTables n) × ((if c then ok u else err constraint) ≡ ok t')
            × (t'.shows ≡ t.shows))
  guarded true constraint t u h = inr (u, refl, h)
  guarded false constraint t u h = inl (constraint, refl)

  upsert_progress-shows :
      (fault : Option StoreError) (constraint : StoreError) (p : Play n) (t : PlayTables n)
      → ((e : StoreError) × (upsert_progress n fault constraint p t ≡ err e))
        ⊎ ((t' : PlayTables n) × (upsert_progress n fault constraint p t ≡ ok t')
            × (t'.shows ≡ t.shows))
  unfolding upsert_progress
  upsert_progress-shows (some e) constraint p t = inl (e, refl)
  upsert_progress-shows none constraint p t =
      guarded (any_row (has_id p.anilist_id) t.shows) constraint t _ refl

  finish_progress-le :
      (p : Play n) (index : ℕ) (cur : Row)
      → (cur.progress ≤ finish_progress n p index cur)
        × (finish_progress n p index cur ≤ max cur.progress index)
  unfolding finish_progress
  finish_progress-le p index cur =
      elim (Bool-cases (natural_end n p.position_secs p.duration_secs)) [
        | inl h ↦ rw h (omega arith, omega arith)
        | inr h ↦ rw h (omega arith, omega arith)
      ]

  -- What a counted play did to its show: one play more, and progress that is not lower, and no higher
  -- than before or than the episode.
  pub record IsEngaged (index : ℕ) (r r' : Row) : Type 0 where
    pub counted : r'.play_count ≡ r.play_count + 1
    pub not_lower : r.progress ≤ r'.progress
    pub not_beyond : r'.progress ≤ max r.progress index
    pub member : has_value r'.library_added_at ≡ true
    pub scored : r'.user_score ≡ r.user_score

  coalesce_member : (o : Option ℤ) (now : ℤ) → has_value (coalesce o now) ≡ true
  coalesce_member none now = refl
  coalesce_member (some at) now = refl

  engaged-IsEngaged :
      (p : Play n) (index : ℕ) (r : Row)
      → IsEngaged index r
          (engaged n (finish_progress n p index r) (finish_status n p index r) p.now r)
  unfolding engaged
  engaged-IsEngaged p index r = record {
    counted = refl;
    not_lower = (finish_progress-le p index r).0;
    not_beyond = (finish_progress-le p index r).1;
    member = coalesce_member r.library_added_at p.now;
    scored = refl;
  }

  -- The ways a call can end, by its answer and the tables it leaves.
  abbrev pub Ends : Play n → ℕ → Row → PlayTables n → Result StoreError Bool × PlayTables n → Type 0
  Ends p index r t out =
      ((e : StoreError) × (out ≡ (err e, t)))
      ⊎ ((out.0 ≡ ok false) × (out.1.shows ≡ t.shows))
      ⊎ ((out.0 ≡ ok true)
          × ((r' : Row) × (find row_key p.anilist_id out.1.shows ≡ some r') × IsEngaged index r r'))

  engaged_id :
      (new_progress : ℕ) (new_status : ListStatus) (now : ℤ) (r : Row)
      → (engaged n new_progress new_status now r).anilist_id ≡ r.anilist_id
  unfolding engaged
  engaged_id new_progress new_status now r = refl

  module _ (d : Database) (p : Play n) (index : ℕ) (r : Row) (t : PlayTables n) where
    -- After the resume row: the engagement, and the commit.
    bump-Ends :
        (bumped committed : Option StoreError) (t1 : PlayTables n)
        → find row_key p.anilist_id t1.shows ≡ some r
        → Ends p index r t (
            or_left n true t (
              then_commit n committed (
                bump_engagement n bumped p.anilist_id
                  (finish_progress n p index r)
                  (finish_status n p index r)
                  p.now
                  t1)))
    unfolding bump_engagement
    bump-Ends (some e) committed t1 f = inl (e, refl)
    bump-Ends none (some e) t1 f = inl (e, refl)
    bump-Ends none none t1 f = inr (
        inr (
          refl,
          (
            engaged n (finish_progress n p index r) (finish_status n p index r) p.now r,
            find-update_where p.anilist_id _ t1.shows (engaged_id _ _ p.now) r f,
            engaged-IsEngaged p index r,
          ),
        ))

    kept-Ends :
        (committed : Option StoreError) (t1 : PlayTables n)
        → t1.shows ≡ t.shows
        → Ends p index r t (or_left n false t (then_commit n committed (ok t1)))
    kept-Ends (some e) t1 s = inl (e, refl)
    kept-Ends none t1 s = inr (inl (refl, s))

    finish_row-Ends :
        find row_key p.anilist_id t.shows ≡ some r
        → Ends p index r t (finish_row n d p index t (some r))
    unfolding finish_row
    finish_row-Ends f = elim (upsert_progress-shows (d.fault 2) d.constraint p t) [
      | inl (e, h) ↦ inl (e, rw h refl)
      | inr (t1, h, s) ↦ elim (Bool-cases (play_counts n p.position_secs p.duration_secs)) [
        | inl c ↦
            rw (h, c)
              (bump-Ends (d.fault 3) (d.fault 4) t1 (ap (λ x. find row_key p.anilist_id x) s ∙ f))
        | inr c ↦ rw (h, c) (kept-Ends (d.fault 4) t1 s)
      ]
    ]

  unless_fault-Ends :
      (fault : Option StoreError) (p : Play n) (index : ℕ) (r : Row) (t : PlayTables n)
      (next : Result StoreError Bool × PlayTables n)
      → Ends p index r t next
      → Ends p index r t (unless_fault n fault t next)
  unless_fault-Ends none p index r t next h = h
  unless_fault-Ends (some e) p index r t next h = inl (e, refl)

  -- For a show in the table, the end of a play fails and changes nothing; or is not counted and leaves the
  -- shows as they were; or is counted, and the row of the show has one play more, a progress neither lower
  -- than before nor beyond the old one and the episode, library membership, and the score it had.
  pub record_finish-Ends :
      (d : Database) (p : Play n) (index : ℕ) (t : PlayTables n) (r : Row)
      → find row_key p.anilist_id t.shows ≡ some r
      → Ends p index r t (record_finish n d p index t)
  unfolding record_finish
  record_finish-Ends d p index t r f = elim (Bool-cases (all_finite n p)) [
    | inr h ↦ rw h (inl (_, refl))
    | inl h ↦ elim (Bool-cases (index == 0)) [
      | inl z ↦ rw (h, z) (inr (inl (refl, refl)))
      | inr z ↦
          rw (h, z, status_row-find p.anilist_id t.shows, f)
            (unless_fault-Ends (d.fault 0) p index r t _
              (unless_fault-Ends (d.fault 1) p index r t _ (finish_row-Ends d p index r t f)))
    ]
  ]
