-- ===== src/Sync/Types.antt =====
-- src/sync.hpp: the outcomes and the summary of a run, the calls of a run, and its environment.
use shigoku.Common.{
  ℕ, ◌+◌, ◌%◌, ◌^◌, Bool, true, false, ◌&&◌, ◌==◌, List, [], ◌∷◌, Option, none, some, Bytes,
  if◌then◌else◌, leb,
}
use shigoku.Common.Int.{ℤ, eq_ℤ, pos, ltb_ℤ}
use shigoku.Domain.Types.{ScoreFormat}
use shigoku.Store.Types.{
  Result, StoreError, ProviderError, ErrorKind, ListEntry, RemoteEntry, SyncRow, PullOutcome,
  no_pull,
}

pub data SyncOutcome : Type 0 where
  completed disabled no_token expired no_user_id : SyncOutcome
  pull_unauthorized pull_rate_limited unauthorized rate_limited failed : SyncOutcome

pub record SyncSummary : Type 0 where
  pub outcome : SyncOutcome
  pub pull_failed : Bool
  pub pulled : PullOutcome
  pub dirty : ℕ
  pub pushed : ℕ
  pub push_failed : ℕ
  pub push_skipped : ℕ

-- `SyncSummary::terminal`.
abbrev pub terminal : SyncOutcome → SyncSummary
terminal outcome = record {
  outcome = outcome;
  pull_failed = false;
  pulled = no_pull;
  dirty = 0;
  pushed = 0;
  push_failed = 0;
  push_skipped = 0;
}

-- `x += 1` on a `uint32_t`.
abbrev pub inc32 : ℕ → ℕ
inc32 n = (n + 1) % 2 ^ 32

-- `kPushSpacing` and `kRateLimitBackoff`, in milliseconds.
abbrev pub push_spacing : ℕ
push_spacing = 2000

abbrev pub rate_limit_backoff : ℕ
rate_limit_backoff = 60000

-- A call that the sync makes, with the answer where a theorem looks at it.
pub data Event : Type 0 where
  slept : ℕ → Event
  listed : Event
  fetched : ℤ → Result ProviderError (Option ListEntry) → Event
  saved : SyncRow → Result ProviderError ℤ → Event
  marked : SyncRow → ℕ → Event
  pulled_list : Event
  reconciled : Event

abbrev pub Log : Type 0
Log = List Event

-- The answers of the AniList client and of the store, after the calls of a log.
pub record Env : Type 0 where
  pub fetch_list : Log → Result ProviderError (List RemoteEntry)
  pub fetch_entry : Log → ℤ → Result ProviderError (Option ListEntry)
  pub save_entry : Log → SyncRow → Result ProviderError ℤ
  pub reconcile_pull : Log → List RemoteEntry → Result StoreError PullOutcome
  pub list_dirty_for_sync : Log → Result StoreError (List SyncRow)
  pub mark_synced : Log → SyncRow → ℕ → Result StoreError (Unit {0})

-- `kind == Http && status == 401`, and `kind == RateLimited`.
abbrev pub is_kind : ErrorKind → ErrorKind → Bool
is_kind ErrorKind.http ErrorKind.http = true
is_kind ErrorKind.rate_limited ErrorKind.rate_limited = true
is_kind _ _ = false

abbrev pub is_401 : ProviderError → Bool
is_401 e = is_kind e.kind ErrorKind.http && e.status == 401

abbrev pub is_429 : ProviderError → Bool
is_429 e = is_kind e.kind ErrorKind.rate_limited

-- `AniListAuth` of src/auth.hpp, with what the sync reads of it.
pub record AniListAuth : Type 0 where
  pub access_token : Bytes
  pub expires_at : ℤ
  pub user_id : ℤ
  pub score_format : ScoreFormat

unfoldable pub has_control : Bytes → Bool
has_control [] = false
has_control (c ∷ s) = if leb 0x20 c then has_control s else true

-- `AniListAuth::bearer` and `AniListAuth::is_expired` of src/auth.cpp.
unfoldable pub bearer : AniListAuth → Option Bytes
unfolding has_control
bearer auth = elim auth.access_token [
  | [] ↦ none
  | c ∷ s ↦ if has_control (c ∷ s) then none else some (c ∷ s)
]

unfoldable pub is_expired : AniListAuth → ℤ → Bool
is_expired auth now =
    if eq_ℤ auth.expires_at (pos 0)
    then false
    else if ltb_ℤ now auth.expires_at
    then false
    else true
