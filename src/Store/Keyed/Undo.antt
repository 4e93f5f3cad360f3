-- ===== src/Store/Keyed/Undo.antt =====
-- An INSERT with its ON CONFLICT clause, taken back by another or by a DELETE.
use shigoku.Common.{
  List, ◌≡◌, true, false, some, none, ◌∷◌, refl, Bool-cases, inl, ◌∙◌, inr, ap, sym, [],
}
use shigoku.Store.Keyed.{Keyed, find, upsert, delete_where}
use shigoku.Store.Keyed.Laws.{find-hit, find-miss}

module _ {ℓ κ} {K : Type ℓ} {A : Type κ} (t : Keyed K A) where
  upsert-on :
      (fresh r : A) (write : A → A) (rows : List A)
      → t.eq_key (t.key r) (t.key fresh) ≡ true
      → upsert t fresh write (r ∷ rows) ≡ write r ∷ rows
  unfolding upsert
  upsert-on fresh r write rows h = rw h refl

  upsert-past :
      (fresh r : A) (write : A → A) (rows : List A)
      → t.eq_key (t.key r) (t.key fresh) ≡ false
      → upsert t fresh write (r ∷ rows) ≡ r ∷ upsert t fresh write rows
  unfolding upsert
  upsert-past fresh r write rows h = rw h refl

  -- A row that is written back as it was.
  pub upsert-undo :
      (fresh fresh' : A) (write write' : A → A) (prior : A) (rows : List A)
      → t.key fresh' ≡ t.key fresh
      → ((r : A) → t.key (write r) ≡ t.key r)
      → write' (write prior) ≡ prior
      → find t (t.key fresh) rows ≡ some prior
      → upsert t fresh' write' (upsert t fresh write rows) ≡ rows
  upsert-undo fresh fresh' write write' prior [] same keeps back h = absurd (unfold find in cc)
  upsert-undo fresh fresh' write write' prior (r ∷ rows) same keeps back h =
      elim (Bool-cases (t.eq_key (t.key r) (t.key fresh))) [
        | inl on ↦
            let is_prior : r ≡ prior = cc (find-hit t (t.key fresh) r rows on, h) in
            let on' : t.eq_key (t.key (write r)) (t.key fresh') ≡ true = rw (keeps r, same) on in
            rw (upsert-on fresh r write rows on) (
              upsert-on fresh' (write r) write' rows on'
              ∙ ap (λ (x : A). x ∷ rows)
                  (ap (λ (x : A). write' (write x)) is_prior ∙ back ∙ sym is_prior))
        | inr past ↦
            let past' : t.eq_key (t.key r) (t.key fresh') ≡ false = rw same past in
            let rest = sym (find-miss t (t.key fresh) r rows past) ∙ h in
            rw (upsert-past fresh r write rows past) (
              upsert-past fresh' r write' (upsert t fresh write rows) past'
              ∙ ap (λ (xs : List A). r ∷ xs)
                  (upsert-undo fresh fresh' write write' prior rows same keeps back rest))
      ]

  -- A row that is written as it is.
  pub upsert-same :
      (fresh : A) (write : A → A) (prior : A) (rows : List A)
      → write prior ≡ prior
      → find t (t.key fresh) rows ≡ some prior
      → upsert t fresh write rows ≡ rows
  upsert-same fresh write prior [] same h = absurd (unfold find in cc)
  upsert-same fresh write prior (r ∷ rows) same h =
      elim (Bool-cases (t.eq_key (t.key r) (t.key fresh))) [
        | inl on ↦
            let is_prior : r ≡ prior = cc (find-hit t (t.key fresh) r rows on, h) in
            upsert-on fresh r write rows on
            ∙ ap (λ (x : A). x ∷ rows) (ap write is_prior ∙ same ∙ sym is_prior)
        | inr past ↦
            upsert-past fresh r write rows past
            ∙ ap (λ (xs : List A). r ∷ xs)
                (upsert-same fresh write prior rows same
                  (sym (find-miss t (t.key fresh) r rows past) ∙ h))
      ]

  -- A row that is inserted and deleted again.
  pub delete_where-upsert :
      (fresh : A) (write : A → A) (rows : List A)
      → find t (t.key fresh) rows ≡ none
      → delete_where (λ (r : A). t.eq_key (t.key r) (t.key fresh)) (upsert t fresh write rows)
        ≡ rows
  unfolding delete_where upsert
  delete_where-upsert fresh write [] h = rw ((t.eq_key_iff (t.key fresh) (t.key fresh)).1 refl) refl
  delete_where-upsert fresh write (r ∷ rows) h =
      elim (Bool-cases (t.eq_key (t.key r) (t.key fresh))) [
        | inl on ↦ absurd (cc (find-hit t (t.key fresh) r rows on, h))
        | inr past ↦ rw past (
            rw past (
              ap (λ (xs : List A). r ∷ xs)
                (delete_where-upsert fresh write rows
                  (sym (find-miss t (t.key fresh) r rows past) ∙ h))))
      ]

  -- A DELETE of a row that is not there.
  pub delete_where-missing :
      (k : K) (rows : List A)
      → find t k rows ≡ none
      → delete_where (λ (r : A). t.eq_key (t.key r) k) rows ≡ rows
  unfolding delete_where
  delete_where-missing k [] h = refl
  delete_where-missing k (r ∷ rows) h = elim (Bool-cases (t.eq_key (t.key r) k)) [
    | inl on ↦ absurd (cc (find-hit t k r rows on, h))
    | inr past ↦ rw past (
        ap (λ (xs : List A). r ∷ xs)
          (delete_where-missing k rows (sym (find-miss t k r rows past) ∙ h)))
  ]

  -- A row that is written, inserted or not, and deleted.
  pub delete_where-written :
      (fresh : A) (write : A → A) (rows : List A)
      → ((r : A) → t.key (write r) ≡ t.key r)
      → delete_where (λ (r : A). t.eq_key (t.key r) (t.key fresh)) (upsert t fresh write rows)
        ≡ delete_where (λ (r : A). t.eq_key (t.key r) (t.key fresh)) rows
  unfolding delete_where upsert
  delete_where-written fresh write [] keeps =
      rw ((t.eq_key_iff (t.key fresh) (t.key fresh)).1 refl) refl
  delete_where-written fresh write (r ∷ rows) keeps =
      elim (Bool-cases (t.eq_key (t.key r) (t.key fresh))) [
        | inl on ↦
            let on' : t.eq_key (t.key (write r)) (t.key fresh) ≡ true = rw (keeps r) on in
            rw on (rw on' refl)
        | inr past ↦
            rw past
              (rw past (ap (λ (xs : List A). r ∷ xs) (delete_where-written fresh write rows keeps)))
      ]
