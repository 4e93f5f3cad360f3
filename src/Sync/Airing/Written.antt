-- ===== src/Sync/Airing/Written.antt =====
-- src/sync.cpp, `refresh_airing`: an answer that is asked for is written.
use shigoku.Common.{
  ◌≡◌, refl, List, [], ◌∷◌, ◌++◌, Option, none, some, arith, get_elem?, ◌∙◌, ap, inl, inr, true,
  false, suc, zero, Option-cases, Bool-cases, ℕ,
}
use shigoku.Common.Int.{ℤ, pos, ◌<ℤ◌, eq_ℤ_iff, ltb_ℤ}
use shigoku.Store.Types.{ok, StoreError, AiringCandidate}
use shigoku.Store.Rows.{Row, Table, has_id, update_row, update_where}
use shigoku.Store.Rows.Laws.{get_elem?-update_where}
use shigoku.Store.WorkList.{list_airing_candidates}
use shigoku.Sync.Types.{inc32}
use shigoku.Sync.Push.{contains}
use shigoku.Sync.Airing.{AiringRow, Asked, target, stamp_all, refresh_airing, no_ids, ask_all, ask}
use shigoku.Sync.Airing.Requests.{rows_of, stamped, stamp-skip, stamp-write, nothing}
use shigoku.Sync.Airing.Wanted.{refresh-answered}

contains-append :
    (ids : List ℤ) (y id : ℤ) → contains ids id ≡ true → contains (ids ++ y ∷ []) id ≡ true
unfolding contains
contains-append [] y id h = absurd (cc)
contains-append (x ∷ ids) y id h = ground (arith, contains-append ids y id)

contains-last : (ids : List ℤ) (id : ℤ) → contains (ids ++ id ∷ []) id ≡ true
unfolding contains
contains-last [] id = rw ((eq_ℤ_iff id id).1 refl) refl
contains-last (x ∷ ids) id = ground (arith, contains-last ids id)

contains-ask :
    (c : AiringCandidate) (a : Asked) (id : ℤ)
    → contains a.ids id ≡ true
    → contains (ask c a).ids id ≡ true
unfolding ask
contains-ask c a id h = elim (Bool-cases (ltb_ℤ (pos 0) c.anilist_id)) [
  | inl real ↦ rw (real, ask) (contains-append a.ids c.anilist_id id h)
  | inr synthetic ↦ elim (Option-cases c.mal_id) [
    | inl missing ↦ rw (synthetic, ask) (rw missing h)
    | inr (m, found) ↦ elim (Bool-cases (ltb_ℤ (pos 0) m)) [
      | inr bad ↦ rw (synthetic, ask) (rw found (rw bad h))
      | inl good ↦ rw (synthetic, ask) (rw found (rw good h))
    ]
  ]
]

contains-asked :
    (c : AiringCandidate) (a : Asked)
    → pos 0 <ℤ c.anilist_id
    → contains (ask c a).ids c.anilist_id ≡ true
unfolding ask
contains-asked c a positive =
    let real : ltb_ℤ (pos 0) c.anilist_id ≡ true = ground arith in
    rw (real, ask) (contains-last a.ids c.anilist_id)

contains-ask_all :
    (cs : List AiringCandidate) (a : Asked) (id : ℤ)
    → contains a.ids id ≡ true
    → contains (ask_all cs a).ids id ≡ true
unfolding ask_all
contains-ask_all [] a id h = h
contains-ask_all (c ∷ cs) a id h = contains-ask_all cs (ask c a) id (contains-ask c a id h)

contains-due :
    (cs : List AiringCandidate) (a : Asked) (k : ℕ) (c : AiringCandidate)
    → get_elem? cs k ≡ some c
    → pos 0 <ℤ c.anilist_id
    → contains (ask_all cs a).ids c.anilist_id ≡ true
unfolding ask_all
contains-due [] a k c at positive = absurd (cc)
contains-due (d ∷ cs) a zero c at positive =
    let same : d ≡ c = cc in
    rw same (contains-ask_all cs (ask c a) c.anilist_id (contains-asked c a positive))
contains-due (d ∷ cs) a (suc k) c at positive = contains-due cs (ask d a) k c at positive

no_ids-held :
    (ids mal_ids : List ℤ) (pairs : List (ℤ × ℤ)) (id : ℤ)
    → contains ids id ≡ true
    → no_ids (record { ids = ids; mal_ids = mal_ids; row_by_mal = pairs }) ≡ false
unfolding no_ids contains
no_ids-held [] mal_ids pairs id h = absurd (cc)
no_ids-held (x ∷ ids) mal_ids pairs id h = refl

-- A row that is as `r` apart from its airing date.
abbrev IsLike : ℕ → Row → Table → Type 0
IsLike i r rows =
    (n : Row) × (get_elem? rows i ≡ some n)
    × (n.anilist_id ≡ r.anilist_id)
    × ((x : AiringRow) → stamped x n ≡ stamped x r)

update-IsLike :
    (id : ℤ) (y : AiringRow) (rows : Table) (i : ℕ) (r : Row)
    → IsLike i r rows
    → IsLike i r (update_where (has_id id) (stamped y) rows)
update-IsLike id y rows i r (n, at, same, like) =
    let placed = get_elem?-update_where (has_id id) (stamped y) rows i n at in
    elim (Bool-cases (has_id id n)) [
      | inl h ↦
          let took : update_row (has_id id) (stamped y) n ≡ stamped y n = ground (arith, h) in
          (stamped y n, placed ∙ ap some took, same, like)
      | inr h ↦
          let kept : update_row (has_id id) (stamped y) n ≡ n = ground (arith, h) in
          (n, placed ∙ ap some kept, same, like)
    ]

module _ (fault : AiringRow → Option StoreError) (a : Asked) (x : AiringRow) (r : Row) (i : ℕ)
    (fine : (y : AiringRow) → fault y ≡ none) (wanted : target a x ≡ some r.anilist_id) where
  stamp-IsLike :
      (rows : Table) (written : ℕ)
      → IsLike i r rows
      → get_elem? (rows_of (stamp_all fault a (x ∷ []) rows written)) i ≡ some (stamped x r)
  unfolding stamp_all
  stamp-IsLike rows written (n, at, same, like) =
      let mine : has_id r.anilist_id n ≡ true = (eq_ℤ_iff n.anilist_id r.anilist_id).1 same in
      let took : update_row (has_id r.anilist_id) (stamped x) n ≡ stamped x n =
        ground (arith, mine) in
      ap (λ (rows' : Table). get_elem? rows' i)
        (stamp-write fault a x [] rows written r.anilist_id wanted (fine x) ∙ refl)
      ∙ get_elem?-update_where (has_id r.anilist_id) (stamped x) rows i n at
      ∙ ap some (took ∙ like x)

  stamp_all-last :
      (xs : List AiringRow) (rows : Table) (written : ℕ)
      → IsLike i r rows
      → get_elem? (rows_of (stamp_all fault a (xs ++ x ∷ []) rows written)) i ≡ some (stamped x r)
  stamp_all-last [] rows written s = stamp-IsLike rows written s
  stamp_all-last (y ∷ xs) rows written s = elim (Option-cases (target a y)) [
    | inl unasked ↦
        rw (stamp-skip fault a y (xs ++ x ∷ []) rows written unasked)
          (stamp_all-last xs rows written s)
    | inr (id, found) ↦ rw (stamp-write fault a y (xs ++ x ∷ []) rows written id found (fine y)) (
        stamp_all-last xs (update_where (has_id id) (stamped y) rows) (inc32 written)
          (update-IsLike id y rows i r s))
  ]

target-wanted :
    (a : Asked) (x : AiringRow)
    → contains a.ids x.anilist_id ≡ true
    → target a x ≡ some x.anilist_id
unfolding target
target-wanted a x h = rw (h, target) refl

-- Where the store lists a row with an AniList id as due, and the last of AniList's answers, whatever
-- comes before it, is under that id, a refresh on a database without faults leaves the row with the
-- airing date and episode of that answer, and as it was in all else.
pub refresh_airing-last :
    (xs : List AiringRow) (x : AiringRow) (now : ℤ) (rows : Table) (i : ℕ) (r : Row)
    (cs : List AiringCandidate) (k : ℕ) (c : AiringCandidate)
    → get_elem? rows i ≡ some r
    → list_airing_candidates none now rows ≡ ok cs
    → get_elem? cs k ≡ some c
    → c.anilist_id ≡ r.anilist_id
    → x.anilist_id ≡ r.anilist_id
    → pos 0 <ℤ r.anilist_id
    → get_elem?
        (rows_of (refresh_airing (λ ids mal_ids. ok (xs ++ x ∷ [])) none (λ y. none) now rows))
        i
      ≡ some (record r {
        next_airing_at = x.next_airing_at;
        next_airing_episode = x.next_airing_episode;
      })
refresh_airing-last xs x now rows i r cs k c at listed due its_id answers positive =
    let a = ask_all cs nothing in
    let held : contains a.ids c.anilist_id ≡ true =
      contains-due cs _ k c due (rw its_id positive) in
    let held' : contains a.ids x.anilist_id ≡ true = rw (answers, ← its_id) held in
    let busy = no_ids-held a.ids a.mal_ids a.row_by_mal c.anilist_id held in
    ap (λ (rows' : Table). get_elem? rows' i)
      (refresh-answered (λ ids mal_ids. ok (xs ++ x ∷ [])) none now rows (λ y. none) cs listed
        (xs ++ x ∷ []) busy refl)
    ∙ stamp_all-last (λ y. none) a x r i (λ y. refl) (target-wanted a x held' ∙ ap some answers) xs
        rows 0 (r, at, refl, λ y. refl)
