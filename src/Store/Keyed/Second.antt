-- ===== src/Store/Keyed/Second.antt =====
-- A table with a second unique index: an INSERT under the first key keeps the second apart, if no
-- other row has the new row's second key.
use shigoku.Store.Keyed.Laws.{find-hit, find-miss, eq_key_ne, eq_key_refl, some_inj}
use shigoku.Common.{
  ◌≡◌, some, ◌∷◌, ◌≢◌, none, Bool-cases, true, false, inl, Option-cases, inr, ◌∙◌, [], refl, List,
}
use shigoku.Store.Keyed.{Keyed, find, KeysApart, upsert}
use mathlib.Core.Path.{subst, sym}

module _ {ℓ κ ρ} {K : Type ℓ} {J : Type ρ} {A : Type κ} (t : Keyed K A) (u : Keyed J A) where
  -- A row that is found by the second key is found by the first.
  found_by : (j : J) (rows : List A) (x : A) → find u j rows ≡ some x → find t (t.key x) rows ≢ none
  unfolding find
  found_by j [] x h n = absurd (cc)
  found_by j (r ∷ rows) x h n = elim (Bool-cases (t.eq_key (t.key r) (t.key x))) [
    | inl e ↦ absurd (cc (sym (find-hit t (t.key x) r rows e) ∙ n))
    | inr e ↦ elim (Bool-cases (u.eq_key (u.key r) j)) [
      | inl f ↦ absurd (cc (eq_key_refl t (t.key x), e, find-hit u j r rows f, h))
      | inr f ↦
          found_by j rows x (sym (find-miss u j r rows f) ∙ h)
            (sym (find-miss t (t.key x) r rows e) ∙ n)
    ]
  ]

  second_tail :
      (x : A) (rows : List A) (r : A)
      → find u (u.key x) rows ≡ none
      → find u (u.key r) rows ≡ some r
      → find u (u.key r) (x ∷ rows) ≡ some r
  second_tail x rows r n h = elim (Bool-cases (u.eq_key (u.key x) (u.key r))) [
    | inl e ↦
        absurd
          (cc (subst (λ j. find u j rows ≡ none) ((u.eq_key_iff (u.key x) (u.key r)).0 e) n, h))
    | inr e ↦ find-miss u (u.key r) x rows e ∙ h
  ]

  -- A row that is found by the first key is found by its second.
  pub find-second :
      (k : K) (rows : List A) (r : A)
      → KeysApart u rows
      → find t k rows ≡ some r
      → find u (u.key r) rows ≡ some r
  unfolding find
  find-second k [] r a h = absurd (cc)
  find-second k (x ∷ rows) r a h = elim (Bool-cases (t.eq_key (t.key x) k)) [
    | inl e ↦
        subst (λ y. find u (u.key y) (x ∷ rows) ≡ some y)
          (some_inj (sym (find-hit t k x rows e) ∙ h))
          (find-hit u (u.key x) x rows (eq_key_refl u (u.key x)))
    | inr e ↦ second_tail x rows r a.0 (find-second k rows r a.1 (sym (find-miss t k x rows e) ∙ h))
  ]

  pub miss_of_none :
      (j : J) (r : A) (rows : List A) → find u j (r ∷ rows) ≡ none → u.eq_key (u.key r) j ≡ false
  miss_of_none j r rows h = elim (Bool-cases (u.eq_key (u.key r) j)) [
    | inl e ↦ absurd (cc (find-hit u j r rows e, h))
    | inr e ↦ e
  ]

  pub missing_behind :
      (j : J) (r : A) (rows : List A) → find u j (r ∷ rows) ≡ none → find u j rows ≡ none
  missing_behind j r rows h = sym (find-miss u j r rows (miss_of_none j r rows h)) ∙ h

  module _ (fresh : A) (write : A → A)
      (rekeys : (r : A) → t.key r ≡ t.key fresh → u.key (write r) ≡ u.key fresh) where
    -- Only the row that the INSERT replaces has the new row's second key.
    abbrev pub OnlyOwn : List A → Type (ℓ ⊔ κ)
    OnlyOwn rows = (x : A) → find u (u.key fresh) rows ≡ some x → t.key x ≡ t.key fresh

    own_tail : (r : A) (rows : List A) → KeysApart u (r ∷ rows) → OnlyOwn (r ∷ rows) → OnlyOwn rows
    own_tail r rows a own x h = elim (Bool-cases (u.eq_key (u.key r) (u.key fresh))) [
      | inl e ↦ absurd (
          cc
            (subst (λ j. find u j rows ≡ none) ((u.eq_key_iff (u.key r) (u.key fresh)).0 e) a.0, h))
      | inr e ↦ own x (find-miss u (u.key fresh) r rows e ∙ h)
    ]

    find-upsert_apart :
        (j : J) (rows : List A)
        → u.key fresh ≢ j
        → find u j rows ≡ none
        → find u j (upsert t fresh write rows) ≡ none
    unfolding find upsert
    find-upsert_apart j [] n h = rw (eq_key_ne u (u.key fresh) j n)
    find-upsert_apart j (r ∷ rows) n h = elim (Bool-cases (t.eq_key (t.key r) (t.key fresh))) [
      | inl e ↦ rw e (
          find-miss u j (write r) rows (
            rw (rekeys r ((t.eq_key_iff (t.key r) (t.key fresh)).0 e))
              (eq_key_ne u (u.key fresh) j n))
          ∙ missing_behind j r rows h)
      | inr e ↦ rw e (
          find-miss u j r (upsert t fresh write rows) (miss_of_none j r rows h)
          ∙ find-upsert_apart j rows n (missing_behind j r rows h))
    ]

    -- Behind the row that the INSERT replaces, no row has the new row's second key.
    own_apart :
        (r : A) (rows : List A)
        → KeysApart t (r ∷ rows)
        → OnlyOwn rows
        → t.eq_key (t.key r) (t.key fresh) ≡ true
        → find u (u.key fresh) rows ≡ none
    own_apart r rows a own e = elim (Option-cases (find u (u.key fresh) rows)) [
      | inl n ↦ n
      | inr (x, h) ↦ absurd (
          found_by (u.key fresh) rows x h (
            subst (λ k. find t k rows ≡ none)
              ((t.eq_key_iff (t.key r) (t.key fresh)).0 e ∙ sym (own x h)) a.0))
    ]

    -- A row that the INSERT passes by has another second key.
    own_ne :
        (r : A) (rows : List A)
        → OnlyOwn (r ∷ rows)
        → t.eq_key (t.key r) (t.key fresh) ≡ false
        → u.key r ≢ u.key fresh
    own_ne r rows own e h = absurd (
        cc (
          e,
          (t.eq_key_iff (t.key r) (t.key fresh)).1 (
              own r (find-hit u (u.key fresh) r rows ((u.eq_key_iff (u.key r) (u.key fresh)).1 h))),
        ))

    pub KeysApart-second :
        (rows : List A)
        → KeysApart t rows
        → KeysApart u rows
        → OnlyOwn rows
        → KeysApart u (upsert t fresh write rows)
    unfolding upsert find
    KeysApart-second [] a b own = (refl, tt)
    KeysApart-second (r ∷ rows) a b own = elim (Bool-cases (t.eq_key (t.key r) (t.key fresh))) [
      | inl e ↦ rw e (
        rw (rekeys r ((t.eq_key_iff (t.key r) (t.key fresh)).0 e))
            (own_apart r rows a (own_tail r rows b own) e),
        b.1,
      )
      | inr e ↦ rw e (
        find-upsert_apart (u.key r) rows (λ h. own_ne r rows own e (sym h)) b.0,
        KeysApart-second rows a.1 b.1 (own_tail r rows b own),
      )
    ]
