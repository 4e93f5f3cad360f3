-- ===== src/Store/Keyed.antt =====
-- A table of the database as the list of its rows, with a primary key or a unique index: lookup, the
-- INSERT with its ON CONFLICT clause, and DELETE. The tables of src/store.cpp are instances.
pub mod Laws
pub mod Second
pub mod Undo
use shigoku.Common.{Bool, List, ◌≡◌, Option, ◌∷◌, true, none, if◌then◌else◌, some, ◌↔◌, []}

pub record Keyed {ℓ κ} (K : Type ℓ) (A : Type κ) : Type (ℓ ⊔ κ) where
  pub key : A → K
  pub eq_key : K → K → Bool
  pub eq_key_iff : (j k : K) → (eq_key j k ≡ true) ↔ (j ≡ k)

module _ {ℓ κ} {K : Type ℓ} {A : Type κ} (t : Keyed K A) where
  -- SELECT by the key.
  unfoldable pub find : K → List A → Option A
  find k [] = none
  find k (r ∷ rows) = let rest = find k rows in if t.eq_key (t.key r) k then some r else rest

  -- INSERT of a row, with ON CONFLICT DO UPDATE of the row that has its key.
  unfoldable pub upsert : A → (A → A) → List A → List A
  upsert fresh write [] = fresh ∷ []
  upsert fresh write (r ∷ rows) =
      let rest = upsert fresh write rows in
      if t.eq_key (t.key r) (t.key fresh) then write r ∷ rows else r ∷ rest

  -- The key is unique.
  abbrev pub KeysApart : List A → Type κ
  KeysApart [] = Unit
  KeysApart (r ∷ rows) = (find (t.key r) rows ≡ none) × KeysApart rows

-- DELETE of the rows that the WHERE selects.
unfoldable pub delete_where {ℓ} : {A : Type ℓ} → (A → Bool) → List A → List A
delete_where selects [] = []
delete_where selects (r ∷ rows) =
    let rest = delete_where selects rows in if selects r then rest else r ∷ rest

-- What is left of a row that is looked up after a DELETE.
abbrev pub unless {ℓ} : {A : Type ℓ} → (A → Bool) → Option A → Option A
unless selects none = none
unless selects (some r) = if selects r then none else some r
