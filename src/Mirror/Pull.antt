-- ===== src/Mirror/Pull.antt =====
-- `pull_mirror` of src/mal_mirror.cpp, with the calls it makes, the last one first.
pub mod Rolls
use shigoku.Common.{
  ℕ, ◌+◌, ◌*◌, Bool, true, false, not, ◌&&◌, List, [], ◌∷◌, Option, none, some, Bytes,
  if◌then◌else◌, min, has_value, map, value_or,
}
use shigoku.Common.Int.{ℤ, eq_ℤ, ltb_ℤ, pos}
use shigoku.Domain.Types.{Enrichment, ListStatus}
use shigoku.Store.Types.{
  Result, ok, err, StoreError, ProviderError, RemoteEntry, PullOutcome, no_pull,
}
use shigoku.Sync.Types.{has_control, is_401, is_429}
use shigoku.Mirror.Push.{MirrorOutcome}

-- What the pull reads of a `MalAuth`.
pub record MalAuth : Type 0 where
  pub access_token : Bytes
  pub refresh_token : Bytes
  pub expires_at : ℤ

unfoldable pub mal_bearer : MalAuth → Option Bytes
mal_bearer auth = elim auth.access_token [
  | [] ↦ none
  | c ∷ s ↦ if has_control (c ∷ s) then none else some (c ∷ s)
]

unfoldable pub is_mal_expired : MalAuth → ℤ → Bool
is_mal_expired auth now =
    if eq_ℤ auth.expires_at (pos 0)
    then false
    else if ltb_ℤ now auth.expires_at
    then false
    else true

pub data Refresh : Type 0 where
  rolled : MalAuth → Refresh
  refused unreachable : Refresh

-- `mal_catalog::UserListEntry`.
pub record UserListEntry : Type 0 where
  pub seed : Enrichment
  pub status : ListStatus
  pub progress : ℕ
  pub score : ℕ
  pub updated_at : ℤ

-- MAL's score of 0 to 10 is a tenth of the raw one.
unfoldable pub to_remote : UserListEntry → RemoteEntry
to_remote e = record {
  anilist_id = e.seed.anilist_id;
  status = e.status;
  progress = e.progress;
  score = min e.score 10 * 10;
  updated_at = e.updated_at;
  import_seed = some e.seed;
}

pub record MirrorPullSummary : Type 0 where
  pub outcome : MirrorOutcome
  pub pull_failed : Bool
  pub pulled : PullOutcome
  pub rolled_to : Option MalAuth

abbrev pub pull_terminal : MirrorOutcome → MirrorPullSummary
pull_terminal outcome = record {
  outcome = outcome;
  pull_failed = false;
  pulled = no_pull;
  rolled_to = none;
}

abbrev pub missed : MirrorPullSummary
missed = record (pull_terminal MirrorOutcome.completed) { pull_failed = true }

pub data PullCall : Type 0 where
  refreshed : Refresh → PullCall
  fetched_list : Bytes → PullCall
  merged : List RemoteEntry → PullCall

pub record PullEnv : Type 0 where
  pub fetch_list : List PullCall → Bytes → Result ProviderError (List UserListEntry)
  pub refresher : Option (MalAuth → ℤ → Refresh)
  pub reconcile_mal_pull : List RemoteEntry → Result StoreError PullOutcome

pub data PullEnd : Type 0 where
  pull_done : MirrorPullSummary → List PullCall → PullEnd
  pull_broke : StoreError → List PullCall → PullEnd

-- The pair the run authenticates with, and whether it was rolled.
pub record Current : Type 0 where
  pub auth : MalAuth
  pub is_rolled : Bool

abbrev pub finish : Current → MirrorPullSummary → MirrorPullSummary
finish cur s = if cur.is_rolled then record s { rolled_to = some cur.auth } else s

-- What follows a roll: the rest of the run under the new pair, or the summary that ends it.
unfoldable pub after_roll : (Current → List PullCall → PullEnd) → Refresh → List PullCall → PullEnd
after_roll rest (rolled a) log =
    let go_on = rest (record { auth = a; is_rolled = true }) log in
    if has_value (mal_bearer a)
    then go_on
    else pull_done (pull_terminal MirrorOutcome.unauthorized) log
after_roll rest refused log = pull_done (pull_terminal MirrorOutcome.unauthorized) log
after_roll rest unreachable log = pull_done missed log

module _ (env : PullEnv) (now : ℤ) where
  abbrev pub after_merge : Current → Result StoreError PullOutcome → List PullCall → PullEnd
  after_merge cur (err e) log = pull_broke e log
  after_merge cur (ok out) log =
      pull_done (finish cur (record (pull_terminal MirrorOutcome.completed) { pulled = out })) log

  -- The answer to the last fetch.
  unfoldable pub conclude :
      Current → Result ProviderError (List UserListEntry) → List PullCall → PullEnd
  conclude cur (err e) log =
      if is_401 e
      then pull_done (finish cur (pull_terminal MirrorOutcome.unauthorized)) log
      else if is_429 e
      then pull_done (finish cur (pull_terminal MirrorOutcome.rate_limited)) log
      else pull_done (finish cur missed) log
  conclude cur (ok entries) log =
      let remote = map to_remote entries in
      after_merge cur (env.reconcile_mal_pull remote) (merged remote ∷ log)

  -- `client.fetch_list(*current.bearer())`.
  abbrev pub token_of : Current → Bytes
  token_of cur = value_or (mal_bearer cur.auth) []

  unfoldable pub fetch_again : Current → List PullCall → PullEnd
  fetch_again cur log =
      conclude cur (env.fetch_list log (token_of cur)) (fetched_list (token_of cur) ∷ log)

  abbrev pub refused_token : Result ProviderError (List UserListEntry) → Bool
  refused_token (err e) = is_401 e
  refused_token (ok entries) = false

  unfoldable pub after_fetch :
      Current → Result ProviderError (List UserListEntry) → List PullCall → PullEnd
  after_fetch cur answer log = elim env.refresher [
    | none ↦ conclude cur answer log
    | some refresh ↦
        if refused_token answer && not cur.is_rolled
        then after_roll fetch_again (refresh cur.auth now) (refreshed (refresh cur.auth now) ∷ log)
        else conclude cur answer log
  ]

  unfoldable pub fetch_first : Current → List PullCall → PullEnd
  fetch_first cur log =
      after_fetch cur (env.fetch_list log (token_of cur)) (fetched_list (token_of cur) ∷ log)

  unfoldable pub start_pull : MalAuth → PullEnd
  start_pull auth =
      let cur : Current = record { auth = auth; is_rolled = false } in
      elim env.refresher [
        | none ↦ fetch_first cur []
        | some refresh ↦
            if is_mal_expired auth now
            then after_roll fetch_first (refresh auth now) (refreshed (refresh auth now) ∷ [])
            else fetch_first cur []
      ]

  unfoldable pub pull_mirror : MalAuth → Bool → PullEnd
  pull_mirror auth enabled =
      if not enabled
      then pull_done (pull_terminal MirrorOutcome.disabled) []
      else if has_value (mal_bearer auth)
      then start_pull auth
      else pull_done (pull_terminal MirrorOutcome.disabled) []
