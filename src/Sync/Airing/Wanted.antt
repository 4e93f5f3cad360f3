-- ===== src/Sync/Airing/Wanted.antt =====
-- src/sync.cpp, `refresh_airing`: the rows that it stamps, and with what.
use shigoku.Common.{
  ℕ, ◌≡◌, refl, List, [], ◌∷◌, Option, some, arith, get_elem?, ◌∙◌, ap, Bool-cases, inl, inr, ◌⊎◌,
  All, true, suc, sym, Option-cases, false,
}
use shigoku.Common.Int.{ℤ, eq_ℤ_iff}
use shigoku.Store.Types.{ok, err, StoreError, Result, Result-cases, ProviderError, AiringCandidate}
use shigoku.Store.Rows.{Row, Table, has_id, update_row, update_where}
use shigoku.Store.Rows.Laws.{get_elem?-update_where}
use shigoku.Store.WorkList.{list_airing_candidates}
use shigoku.Sync.Types.{inc32}
use shigoku.Sync.Airing.{AiringRow, Asked, target, stamp_all, refresh_airing, no_ids, ask_all}
use shigoku.Sync.Airing.Requests.{
  rows_of, IsFor, stamped, stamp-skip, stamp-fail, stamp-write, nothing, IsAsked, ask_all-IsAsked,
  target-IsFor,
}

-- `Q`: the rows that are asked for; `R`: the answers.
module _ (Q : AiringCandidate → Type 0) (R : AiringRow → Type 0) where
  -- A row as it was, or with the airing date of an answer for it.
  abbrev pub Stamped : Row → Row → Type 0
  Stamped r n =
      (n ≡ r)
      ⊎ ((x : AiringRow) × (c : AiringCandidate) × R x
          × Q c
          × IsFor x c
          × (c.anilist_id ≡ r.anilist_id)
          × (n ≡ stamped x r))

  abbrev pub StampedAt : ℕ → Row → Table → Type 0
  StampedAt i r rows = (n : Row) × (get_elem? rows i ≡ some n) × Stamped r n

  restamped :
      (x : AiringRow) (c : AiringCandidate) (r n : Row)
      → R x
      → Q c
      → IsFor x c
      → c.anilist_id ≡ n.anilist_id
      → Stamped r n
      → Stamped r (stamped x n)
  restamped x c r n w q f at (inl same) =
      inr (x, c, w, q, f, at ∙ ap (λ (m : Row). m.anilist_id) same, ap (stamped x) same)
  restamped x c r n w q f at (inr (y, _, _, _, _, _, same)) =
      inr (x, c, w, q, f, at ∙ ap (λ (m : Row). m.anilist_id) same, ap (stamped x) same)

  set_next_airing-StampedAt :
      (x : AiringRow) (c : AiringCandidate) (id : ℤ) (rows : Table) (i : ℕ) (r : Row)
      → R x
      → Q c
      → c.anilist_id ≡ id
      → IsFor x c
      → StampedAt i r rows
      → StampedAt i r (update_where (has_id id) (stamped x) rows)
  set_next_airing-StampedAt x c id rows i r w q at f (n, here, s) =
      let placed = get_elem?-update_where (has_id id) (stamped x) rows i n here in
      elim (Bool-cases (has_id id n)) [
        | inl h ↦
            let took : update_row (has_id id) (stamped x) n ≡ stamped x n = ground (arith, h) in
            (
              stamped x n,
              placed ∙ ap some took,
              restamped x c r n w q f (at ∙ sym ((eq_ℤ_iff n.anilist_id id).0 h)) s,
            )
        | inr h ↦
            let kept : update_row (has_id id) (stamped x) n ≡ n = ground (arith, h) in
            (n, placed ∙ ap some kept, s)
      ]

  module _ (fault : AiringRow → Option StoreError) (a : Asked) (asked : IsAsked Q a) where
    stamp_all-StampedAt :
        (xs : List AiringRow) (rows : Table) (written i : ℕ) (r : Row)
        → All R xs
        → StampedAt i r rows
        → StampedAt i r (rows_of (stamp_all fault a xs rows written))
    stamp_all-StampedAt [] rows written i r w s = unfold stamp_all in s
    stamp_all-StampedAt (x ∷ xs) rows written i r w s = elim (Option-cases (target a x)) [
      | inl unasked ↦
          rw (stamp-skip fault a x xs rows written unasked)
            (stamp_all-StampedAt xs rows written i r w.1 s)
      | inr (id, found) ↦
          let (c, q, at, f) = target-IsFor Q a x id asked found in
          elim (Option-cases (fault x)) [
            | inr (e, failed) ↦ rw (stamp-fail fault a x xs rows written id e found failed) s
            | inl fine ↦ rw (stamp-write fault a x xs rows written id found fine) (
                stamp_all-StampedAt xs (update_where (has_id id) (stamped x) rows) (inc32 written) i
                  r w.1 (set_next_airing-StampedAt x c id rows i r w.0 q at f s))
          ]
    ]

All-at :
    {A : Type 0} (P : A → Type 0) (xs : List A)
    → ((k : ℕ) (x : A) → get_elem? xs k ≡ some x → P x)
    → All P xs
All-at P [] h = tt
All-at P (x ∷ xs) h = (h 0 x refl, All-at P xs (λ k y at. h (suc k) y at))

module _ (fetch : List ℤ → List ℤ → Result ProviderError (List AiringRow))
    (listing : Option StoreError) (now : ℤ) (rows : Table) where
  -- A row that the store lists as due.
  abbrev pub IsDue : AiringCandidate → Type 0
  IsDue c =
      (cs : List AiringCandidate) × (k : ℕ) × (list_airing_candidates listing now rows ≡ ok cs)
      × (get_elem? cs k ≡ some c)

  -- One of the answers of AniList to what it was asked.
  abbrev pub IsAnswer : AiringRow → Type 0
  IsAnswer x =
      (ids mal_ids : List ℤ) × (xs : List AiringRow) × (k : ℕ) × (fetch ids mal_ids ≡ ok xs)
      × (get_elem? xs k ≡ some x)

  module _ (fault : AiringRow → Option StoreError) where
    abbrev refreshed : Table
    refreshed = rows_of (refresh_airing fetch listing fault now rows)

    refresh-failed :
        (e : StoreError) → list_airing_candidates listing now rows ≡ err e → refreshed ≡ rows
    unfolding refresh_airing
    refresh-failed e failed = rw (failed, refresh_airing) refl

    module _ (cs : List AiringCandidate)
        (listed : list_airing_candidates listing now rows ≡ ok cs) where
      abbrev asked_for : Asked
      asked_for = ask_all cs nothing

      refresh-idle : no_ids asked_for ≡ true → refreshed ≡ rows
      unfolding refresh_airing
      refresh-idle idle = rw (listed, refresh_airing) (rw idle refl)

      refresh-unanswered :
          (e : ProviderError)
          → no_ids asked_for ≡ false
          → fetch asked_for.ids asked_for.mal_ids ≡ err e
          → refreshed ≡ rows
      unfolding refresh_airing
      refresh-unanswered e busy failed = rw (listed, refresh_airing) (rw busy (rw failed refl))

      pub refresh-answered :
          (xs : List AiringRow)
          → no_ids asked_for ≡ false
          → fetch asked_for.ids asked_for.mal_ids ≡ ok xs
          → refreshed ≡ rows_of (stamp_all fault asked_for xs rows 0)
      unfolding refresh_airing
      refresh-answered xs busy answered = rw (listed, refresh_airing) (rw busy (rw answered refl))

      asked_for-IsAsked : IsAsked IsDue asked_for
      asked_for-IsAsked =
          ask_all-IsAsked IsDue cs nothing (All-at IsDue cs (λ k c found. (cs, k, listed, found)))
            (record { real_rows = tt; mal_rows = tt })

  -- A refresh, whatever AniList and the database answer, leaves a row as it was, or gives it the airing
  -- date and episode of an answer that is for it, under its own id, or its MAL id if it has no AniList
  -- id; and only if the store listed a row with its id as due. Nothing else of the row changes.
  pub refresh_airing-Stamped :
      (fault : AiringRow → Option StoreError) (i : ℕ) (r : Row)
      → get_elem? rows i ≡ some r
      → StampedAt IsDue IsAnswer i r (rows_of (refresh_airing fetch listing fault now rows))
  refresh_airing-Stamped fault i r at =
      let here : StampedAt IsDue IsAnswer i r rows = (r, at, inl refl) in
      elim (Result-cases (list_airing_candidates listing now rows)) [
        | inr (e, failed) ↦ rw (refresh-failed fault e failed) here
        | inl (cs, listed) ↦
            let a = asked_for fault cs listed in
            elim (Bool-cases (no_ids a)) [
              | inl idle ↦ rw (refresh-idle fault cs listed idle) here
              | inr busy ↦ elim (Result-cases (fetch a.ids a.mal_ids)) [
                | inr (e, failed) ↦ rw (refresh-unanswered fault cs listed e busy failed) here
                | inl (xs, answered) ↦ rw (refresh-answered fault cs listed xs busy answered) (
                    stamp_all-StampedAt IsDue IsAnswer fault a (asked_for-IsAsked fault cs listed)
                      xs rows 0 i r
                      (All-at IsAnswer xs (λ k x found. (a.ids, a.mal_ids, xs, k, answered, found)))
                      here)
              ]
            ]
      ]
