-- ===== src/Store/Keyed/Laws.antt =====
-- Laws of the keyed tables.
use shigoku.Common.{
  ◌≢◌, true, false, some, Option, ◌∷◌, none, Bool-cases, [], inl, refl, inr, sym, ◌∙◌, arith, All,
  ◌≡◌, List, Bool,
}
use mathlib.Core.Path.{subst}
use shigoku.Store.Keyed.{Keyed, find, upsert, KeysApart, delete_where, unless}

pub some_inj {ℓ} : {A : Type ℓ} {a b : A} → some a ≡ some b → a ≡ b
some_inj h = cc

-- What a DELETE leaves was not selected, and keeps what held of it.
All-kept {ℓ} :
    {A : Type ℓ} (selects : A → Bool) (rows : List A)
    → All (λ r. selects r ≡ false) (delete_where selects rows)
unfolding delete_where
All-kept selects [] = tt
All-kept selects (r ∷ rows) = elim (Bool-cases (selects r)) [
  | inl e ↦ rw e (All-kept selects rows)
  | inr e ↦ rw e (e, All-kept selects rows)
]

pub All-delete_where {ℓ ρ} :
    {A : Type ℓ} (P Q : A → Type ρ) (selects : A → Bool)
    → ((r : A) → selects r ≡ false → P r → Q r)
    → (rows : List A) → All P rows
    → All Q (delete_where selects rows)
unfolding delete_where
All-delete_where P Q selects f [] a = tt
All-delete_where P Q selects f (r ∷ rows) a = elim (Bool-cases (selects r)) [
  | inl e ↦ rw e (All-delete_where P Q selects f rows a.1)
  | inr e ↦ rw e (f r e a.0, All-delete_where P Q selects f rows a.1)
]

pub All-map {ℓ ρ} :
    {A : Type ℓ} (P Q : A → Type ρ)
    → ((r : A) → P r → Q r)
    → (rows : List A) → All P rows
    → All Q rows
All-map P Q f [] a = tt
All-map P Q f (r ∷ rows) a = (f r a.0, All-map P Q f rows a.1)

module _ {ℓ κ} {K : Type ℓ} {A : Type κ} (t : Keyed K A) where
  pub eq_key_refl : (k : K) → t.eq_key k k ≡ true
  eq_key_refl k = (t.eq_key_iff k k).1 refl

  pub eq_key_ne : (j k : K) → j ≢ k → t.eq_key j k ≡ false
  eq_key_ne j k n = elim (Bool-cases (t.eq_key j k)) [
    | inl e ↦ absurd (n ((t.eq_key_iff j k).0 e))
    | inr e ↦ e
  ]

  pub find-hit :
      (k : K) (r : A) (rows : List A) → t.eq_key (t.key r) k ≡ true → find t k (r ∷ rows) ≡ some r
  unfolding find
  find-hit k r rows h = rw h

  pub find-miss :
      (k : K) (r : A) (rows : List A)
      → t.eq_key (t.key r) k ≡ false
      → find t k (r ∷ rows) ≡ find t k rows
  unfolding find
  find-miss k r rows h = rw h

  -- The rows behind the first count only as far as they are looked up.
  find-cons :
      (k : K) (r : A) (xs ys : List A)
      → find t k xs ≡ find t k ys
      → find t k (r ∷ xs) ≡ find t k (r ∷ ys)
  unfolding find
  find-cons k r xs ys h = rw h

  pub key-find : (k : K) (rows : List A) (r : A) → find t k rows ≡ some r → t.key r ≡ k
  unfolding find
  key-find k [] r h = absurd (cc)
  key-find k (x ∷ rows) r h = elim (Bool-cases (t.eq_key (t.key x) k)) [
    | inl e ↦ cc ((t.eq_key_iff (t.key x) k).0 e, find-hit k x rows e, h)
    | inr e ↦ key-find k rows r (sym (find-miss k x rows e) ∙ h)
  ]

  module _ (fresh : A) (write : A → A) (keeps : (r : A) → t.key (write r) ≡ t.key r) where
    -- What an INSERT leaves under its key.
    abbrev pub written : Option A → A
    written none = fresh
    written (some r) = write r

    upsert-hit :
        (r : A) (rows : List A)
        → t.eq_key (t.key r) (t.key fresh) ≡ true
        → upsert t fresh write (r ∷ rows) ≡ write r ∷ rows
    unfolding upsert
    upsert-hit r rows h = rw h

    upsert-miss :
        (r : A) (rows : List A)
        → t.eq_key (t.key r) (t.key fresh) ≡ false
        → upsert t fresh write (r ∷ rows) ≡ r ∷ upsert t fresh write rows
    unfolding upsert
    upsert-miss r rows h = rw h

    pub find-upsert_self :
        (rows : List A)
        → find t (t.key fresh) (upsert t fresh write rows)
          ≡ some (written (find t (t.key fresh) rows))
    unfolding find upsert
    find-upsert_self [] = rw (eq_key_refl (t.key fresh))
    find-upsert_self (r ∷ rows) = elim (Bool-cases (t.eq_key (t.key r) (t.key fresh))) [
      | inl e ↦
          rw (upsert-hit r rows e, find-hit (t.key fresh) r rows e)
            (find-hit (t.key fresh) (write r) rows (rw (keeps r) e))
      | inr e ↦
          rw
            (
              upsert-miss r rows e,
              find-miss (t.key fresh) r rows e,
              find-miss (t.key fresh) r (upsert t fresh write rows) e,
            )
            (find-upsert_self rows)
    ]

    apart_from :
        (j : K) (r : A)
        → t.key fresh ≢ j
        → t.eq_key (t.key r) (t.key fresh) ≡ true
        → t.eq_key (t.key r) j ≡ false
    apart_from j r n e =
        eq_key_ne (t.key r) j (λ h. n (sym ((t.eq_key_iff (t.key r) (t.key fresh)).0 e) ∙ h))

    pub find-upsert_other :
        (j : K) (rows : List A)
        → t.key fresh ≢ j
        → find t j (upsert t fresh write rows) ≡ find t j rows
    unfolding upsert
    find-upsert_other j [] n = find-miss j fresh [] (eq_key_ne (t.key fresh) j n)
    find-upsert_other j (r ∷ rows) n = elim (Bool-cases (t.eq_key (t.key r) (t.key fresh))) [
      | inl e ↦
          rw (upsert-hit r rows e, find-miss j r rows (apart_from j r n e))
            (find-miss j (write r) rows (rw (keeps r) (apart_from j r n e)))
      | inr e ↦
          rw (upsert-miss r rows e)
            (find-cons j r (upsert t fresh write rows) rows (find-upsert_other j rows n))
    ]

    key_ne : (r : A) → t.eq_key (t.key r) (t.key fresh) ≡ false → t.key fresh ≢ t.key r
    key_ne r e h = cc (e, (t.eq_key_iff (t.key r) (t.key fresh)).1 (sym h))

    pub KeysApart-upsert :
        (rows : List A) → KeysApart t rows → KeysApart t (upsert t fresh write rows)
    unfolding upsert find
    KeysApart-upsert [] a = (refl, tt)
    KeysApart-upsert (r ∷ rows) a = elim (Bool-cases (t.eq_key (t.key r) (t.key fresh))) [
      | inl e ↦ rw (upsert-hit r rows e) (rw (keeps r) a.0, a.1)
      | inr e ↦
          rw (upsert-miss r rows e)
            (find-upsert_other (t.key r) rows (key_ne r e) ∙ a.0, KeysApart-upsert rows a.1)
    ]

  module _ (selects : A → Bool) where
    pub missing-delete_where :
        (k : K) (rows : List A) → find t k rows ≡ none → find t k (delete_where selects rows) ≡ none
    unfolding find delete_where
    missing-delete_where k [] h = refl
    missing-delete_where k (r ∷ rows) h = ground (arith, missing-delete_where k rows)

    pub find-delete_where :
        (k : K) (rows : List A)
        → KeysApart t rows
        → find t k (delete_where selects rows) ≡ unless selects (find t k rows)
    unfolding find delete_where
    find-delete_where k [] a = refl
    find-delete_where k (r ∷ rows) a = elim (Bool-cases (t.eq_key (t.key r) k)) [
      | inl e ↦ elim (Bool-cases (selects r)) [
        | inl g ↦
            rw (e, g)
              (missing-delete_where k rows
                (subst (λ j. find t j rows ≡ none) ((t.eq_key_iff (t.key r) k).0 e) a.0))
        | inr g ↦ rw (e, g) (find-hit k r (delete_where selects rows) e)
      ]
      | inr e ↦ ground (arith, find-delete_where k rows a.1)
    ]

    pub KeysApart-delete_where :
        (rows : List A) → KeysApart t rows → KeysApart t (delete_where selects rows)
    unfolding delete_where
    KeysApart-delete_where [] a = a
    KeysApart-delete_where (r ∷ rows) a = elim (Bool-cases (selects r)) [
      | inl e ↦ rw e (KeysApart-delete_where rows a.1)
      | inr e ↦ rw e (missing-delete_where (t.key r) rows a.0, KeysApart-delete_where rows a.1)
    ]

  module _ {ρ} (P : A → Type ρ) where
    pub All-upsert :
        (fresh : A) (write : A → A)
        → P fresh
        → ((r : A) → P r → P (write r))
        → (rows : List A) → All P rows
        → All P (upsert t fresh write rows)
    unfolding upsert
    All-upsert fresh write p w [] a = (p, tt)
    All-upsert fresh write p w (r ∷ rows) a = elim (Bool-cases (t.eq_key (t.key r) (t.key fresh))) [
      | inl e ↦ rw e (w r a.0, a.1)
      | inr e ↦ rw e (a.0, All-upsert fresh write p w rows a.1)
    ]

    pub find-All : (k : K) (rows : List A) (r : A) → All P rows → find t k rows ≡ some r → P r
    unfolding find
    find-All k [] r a h = absurd (cc)
    find-All k (x ∷ rows) r a h = elim (Bool-cases (t.eq_key (t.key x) k)) [
      | inl e ↦ subst P (some_inj (sym (find-hit k x rows e) ∙ h)) a.0
      | inr e ↦ find-All k rows r a.1 (sym (find-miss k x rows e) ∙ h)
    ]

  pub find-kept :
      (selects : A → Bool) (k : K) (rows : List A) (r : A)
      → find t k (delete_where selects rows) ≡ some r
      → selects r ≡ false
  find-kept selects k rows r =
      find-All (λ r. selects r ≡ false) k (delete_where selects rows) r (All-kept selects rows)
