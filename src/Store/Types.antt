-- ===== src/Store/Types.antt =====
-- src/store.hpp: what the store hands to and takes from the sync; src/error.hpp: provider errors.
use shigoku.Common.{ℕ, List, [], Option, Bytes, ◌≡◌, ◌⊎◌, inl, inr, refl}
use shigoku.Common.Int.{ℤ}
use shigoku.Domain.Types.{Enrichment, ListStatus}

pub data StoreErrorKind : Type 0 where
  sqlite schema_too_new schema_missing schema_invalid migration_incomplete : StoreErrorKind
  read_only_db non_finite_position : StoreErrorKind

pub record StoreError : Type 0 where
  pub kind : StoreErrorKind
  pub detail : Bytes
  pub found : ℕ
  pub expected : ℕ

pub data ErrorKind : Type 0 where
  network forbidden server http decode unsupported rate_limited : ErrorKind

pub record ProviderError : Type 0 where
  pub kind : ErrorKind
  pub status : ℕ
  pub detail : Bytes

-- `Result<T, E>`.
pub data Result {ℓ κ} (E : Type ℓ) (A : Type κ) : Type (ℓ ⊔ κ) where
  ok : A → Result E A
  err : E → Result E A

pub record ListEntry : Type 0 where
  pub status : ListStatus
  pub progress : ℕ
  pub score : ℕ

pub record RemoteEntry : Type 0 where
  pub anilist_id : ℤ
  pub status : ListStatus
  pub progress : ℕ
  pub score : ℕ
  pub updated_at : ℤ
  pub import_seed : Option Enrichment

pub record SyncRow : Type 0 where
  pub anilist_id : ℤ
  pub title_romaji : Bytes
  pub list_status : ListStatus
  pub progress : ℕ
  pub score : ℕ
  pub synced : Option ListEntry

pub record PullOutcome : Type 0 where
  pub reconciled : ℕ
  pub conflicts : ℕ
  pub contended : List ℤ
  pub imported : ℕ
  pub unmatched : List ℤ

abbrev pub no_pull : PullOutcome
no_pull = record { reconciled = 0; conflicts = 0; contended = []; imported = 0; unmatched = [] }

pub record AiringCandidate : Type 0 where
  pub anilist_id : ℤ
  pub mal_id : Option ℤ

pub record MalMirrorRow : Type 0 where
  pub anilist_id : ℤ
  pub mal_id : ℤ
  pub list_status : ListStatus
  pub progress : ℕ
  pub score : ℕ
  pub synced : Option (ListStatus × ℕ)
  pub synced_score : Option ℕ

-- To split on a computed answer and keep the equation.
pub Result-cases {ℓ κ} :
    {E : Type ℓ} {A : Type κ} (r : Result E A) → ((a : A) × (r ≡ ok a)) ⊎ ((e : E) × (r ≡ err e))
Result-cases (ok a) = inl (a, refl)
Result-cases (err e) = inr (e, refl)
