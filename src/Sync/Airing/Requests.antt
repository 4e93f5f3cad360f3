-- ===== src/Sync/Airing/Requests.antt =====
-- src/sync.cpp, `refresh_airing`: what is asked for, and which answers are for it.
use shigoku.Common.{
  ℕ, ◌≡◌, refl, List, [], ◌∷◌, ◌++◌, Option, none, some, arith, ◌∙◌, ap, Bool-cases, inl, inr, ◌⊎◌,
  All, true, sym, Option-cases,
}
use shigoku.Common.Int.{ℤ, pos, ◌<ℤ◌, ◌≤ℤ◌, ltb_ℤ, eq_ℤ, eq_ℤ_iff}
use shigoku.Store.Types.{StoreError, AiringCandidate}
use shigoku.Store.Rows.{Row, Table, set_next_airing, has_id, update_where}
use shigoku.Sync.Push.{contains}
use shigoku.Sync.Types.{inc32}
use shigoku.Sync.Airing.{
  AiringRow, Asked, target, stamp_all, Refreshed, wrote, write_failed, ask_all, ask, find_row,
}

abbrev pub nothing : Asked
nothing = record { ids = []; mal_ids = []; row_by_mal = [] }

abbrev pub rows_of : Refreshed → Table
rows_of (wrote rows n) = rows
rows_of (write_failed rows e) = rows

-- An answer is for a row that was asked for: under its AniList id; or, where it has none, under its MAL
-- id.
abbrev pub IsFor : AiringRow → AiringCandidate → Type 0
IsFor x c =
    ((x.anilist_id ≡ c.anilist_id) × (pos 0 <ℤ c.anilist_id))
    ⊎ ((m : ℤ) × (c.mal_id ≡ some m) × (x.mal_id ≡ some m) × (c.anilist_id ≤ℤ pos 0))

abbrev pub stamped : AiringRow → Row → Row
stamped x r = record r {
  next_airing_at = x.next_airing_at;
  next_airing_episode = x.next_airing_episode;
}

module _ (fault : AiringRow → Option StoreError) (a : Asked) (x : AiringRow) (xs : List AiringRow)
    (rows : Table) (written : ℕ) where
  pub stamp-skip :
      target a x ≡ none
      → rows_of (stamp_all fault a (x ∷ xs) rows written)
        ≡ rows_of (stamp_all fault a xs rows written)
  unfolding stamp_all
  stamp-skip unasked = rw (unasked, stamp_all) refl

  pub stamp-fail :
      (id : ℤ) (e : StoreError)
      → target a x ≡ some id
      → fault x ≡ some e
      → rows_of (stamp_all fault a (x ∷ xs) rows written) ≡ rows
  unfolding stamp_all set_next_airing
  stamp-fail id e found failed = rw (found, stamp_all) (rw failed refl)

  pub stamp-write :
      (id : ℤ)
      → target a x ≡ some id
      → fault x ≡ none
      → rows_of (stamp_all fault a (x ∷ xs) rows written)
        ≡ rows_of (stamp_all fault a xs (update_where (has_id id) (stamped x) rows) (inc32 written))
  unfolding stamp_all set_next_airing
  stamp-write id found fine = rw (found, stamp_all) (rw fine refl)

All-append :
    {A : Type 0} (P : A → Type 0) (xs : List A) (y : A) → All P xs → P y → All P (xs ++ y ∷ [])
All-append P [] y h p = (p, tt)
All-append P (x ∷ xs) y h p = (h.0, All-append P xs y h.1 p)

-- `Q`: the rows that are asked for.
module _ (Q : AiringCandidate → Type 0) where
  abbrev HasId : ℤ → Type 0
  HasId id = (c : AiringCandidate) × Q c × (c.anilist_id ≡ id) × (pos 0 <ℤ c.anilist_id)

  abbrev HasMal : ℤ → ℤ → Type 0
  HasMal mal id =
      (c : AiringCandidate) × Q c
      × (c.anilist_id ≡ id)
      × (c.mal_id ≡ some mal)
      × (c.anilist_id ≤ℤ pos 0)

  abbrev IsPair : ℤ × ℤ → Type 0
  IsPair p = HasMal p.0 p.1

  pub record IsAsked (a : Asked) : Type 0 where
    pub real_rows : All HasId a.ids
    pub mal_rows : All IsPair a.row_by_mal

  ask-IsAsked : (c : AiringCandidate) (a : Asked) → Q c → IsAsked a → IsAsked (ask c a)
  unfolding ask
  ask-IsAsked c a q i = elim (Bool-cases (ltb_ℤ (pos 0) c.anilist_id)) [
    | inl real ↦
        rw (real, ask)
          (record {
            real_rows = All-append HasId a.ids c.anilist_id i.real_rows (c, q, refl, ground arith);
            mal_rows = i.mal_rows;
          })
    | inr synthetic ↦ elim (Option-cases c.mal_id) [
      | inl missing ↦ rw (synthetic, ask) (rw missing i)
      | inr (m, found) ↦ elim (Bool-cases (ltb_ℤ (pos 0) m)) [
        | inr bad ↦ rw (synthetic, ask) (rw found (rw bad i))
        | inl good ↦
            rw (synthetic, ask)
              (rw found (
                rw good (record {
                  real_rows = i.real_rows;
                  mal_rows =
                      All-append IsPair a.row_by_mal (m, c.anilist_id) i.mal_rows
                        (c, q, refl, found, ground arith);
                })))
      ]
    ]
  ]

  pub ask_all-IsAsked :
      (cs : List AiringCandidate) (a : Asked) → All Q cs → IsAsked a → IsAsked (ask_all cs a)
  unfolding ask_all
  ask_all-IsAsked [] a q i = i
  ask_all-IsAsked (c ∷ cs) a q i = ask_all-IsAsked cs (ask c a) q.1 (ask-IsAsked c a q.0 i)

  contains-HasId : (ids : List ℤ) (id : ℤ) → All HasId ids → contains ids id ≡ true → HasId id
  unfolding contains
  contains-HasId [] id h e = absurd (cc)
  contains-HasId (x ∷ ids) id h e = elim (Bool-cases (eq_ℤ x id)) [
    | inl same ↦ let (c, q, at, positive) = h.0 in (c, q, at ∙ (eq_ℤ_iff x id).0 same, positive)
    | inr other ↦ contains-HasId ids id h.1 (ground arith)
  ]

  find_row-HasMal :
      (pairs : List (ℤ × ℤ)) (mal id : ℤ)
      → All IsPair pairs
      → find_row pairs mal ≡ some id
      → HasMal mal id
  unfolding find_row
  find_row-HasMal [] mal id h e = absurd (cc)
  find_row-HasMal ((key, row) ∷ pairs) mal id h e = elim (Bool-cases (eq_ℤ key mal)) [
    | inl same ↦
        let (c, q, at, its_mal, low) = h.0 in
        let is_row : row ≡ id = ground arith in
        (c, q, at ∙ is_row, its_mal ∙ ap some ((eq_ℤ_iff key mal).0 same), low)
    | inr other ↦ find_row-HasMal pairs mal id h.1 (ground arith)
  ]

  -- An answer that is written is for a row that was asked for.
  pub target-IsFor :
      (a : Asked) (x : AiringRow) (id : ℤ)
      → IsAsked a
      → target a x ≡ some id
      → (c : AiringCandidate) × Q c × (c.anilist_id ≡ id) × IsFor x c
  unfolding target
  target-IsFor a x id i e = elim (Bool-cases (contains a.ids x.anilist_id)) [
    | inl wanted ↦
        let (c, q, at, positive) = contains-HasId a.ids x.anilist_id i.real_rows wanted in
        let is_id : x.anilist_id ≡ id = ground arith in (c, q, at ∙ is_id, inl (sym at, positive))
    | inr other ↦ elim (Option-cases x.mal_id) [
      | inl missing ↦ absurd (cc (rw missing at (rw (other, target) at e)))
      | inr (m, found) ↦
          let hit : find_row a.row_by_mal m ≡ some id = rw found at (rw (other, target) at e) in
          let (c, q, at, its_mal, low) = find_row-HasMal a.row_by_mal m id i.mal_rows hit in
          (c, q, at, inr (m, its_mal, found, low))
    ]
  ]
