-- ===== src/Sync/Run.antt =====
-- `usable_auth`, `run_sync` and `flush_push` of src/sync.cpp. A token is used only through the calls of
-- the environment, so a usable one stands for nothing but the right to go on.
pub mod Safe
use shigoku.Common.{Bool, true, not, List, [], ◌∷◌, Option, none, some, Bytes, if◌then◌else◌}
use shigoku.Common.Int.{ℤ, pos, ltb_ℤ}
use shigoku.Store.Types.{Result, ok, err, StoreError, ProviderError, RemoteEntry}
use shigoku.Sync.Types.{
  SyncOutcome, completed, disabled, no_token, expired, no_user_id, pull_unauthorized,
  pull_rate_limited, SyncSummary, terminal, Log, Env, pulled_list, reconciled, AniListAuth, bearer,
  is_expired, is_401, is_429,
}
use shigoku.Sync.Push.{Flow, go_on, stop, fail, push_dirty}

-- What a run hands back, with the calls it made.
pub data Run : Type 0 where
  summary : SyncSummary → Log → Run
  store_failed : StoreError → Log → Run
  out_of_fuel : Run

pub usable_auth : AniListAuth → ℤ → Result SyncOutcome (Bytes × ℤ)
usable_auth auth now = elim (bearer auth) [
  | none ↦ err no_token
  | some token ↦
      if is_expired auth now
      then err expired
      else if ltb_ℤ (pos 0) auth.user_id
      then ok (token, auth.user_id)
      else err no_user_id
]

abbrev run_of : Option Flow → Run
run_of none = out_of_fuel
run_of (some (go_on st)) = summary st.summary st.log
run_of (some (stop st)) = summary st.summary st.log
run_of (some (fail e st)) = store_failed e st.log

-- The run after the pull, with the summary so far.
after_pull : Env → AniListAuth → Bool → Log → SyncSummary → Run
after_pull env auth pull_only log s =
    if pull_only
    then summary s log
    else run_of (push_dirty env auth.score_format s.pulled.contended log s)

adopt : Env → AniListAuth → Bool → Log → List RemoteEntry → Run
unfolding after_pull
adopt env auth pull_only log remote = elim (env.reconcile_pull log remote) [
  | err e ↦ store_failed e (reconciled ∷ log)
  | ok pulled ↦
      after_pull env auth pull_only (reconciled ∷ log)
        (record (terminal completed) { pulled = pulled })
]

missed_pull : Env → AniListAuth → Bool → Log → ProviderError → Run
unfolding after_pull
missed_pull env auth pull_only log e =
    if is_401 e
    then summary (terminal pull_unauthorized) log
    else if is_429 e
    then summary (terminal pull_rate_limited) log
    else after_pull env auth pull_only log (record (terminal completed) { pull_failed = true })

pull : Env → AniListAuth → Bool → Run
unfolding adopt missed_pull
pull env auth pull_only = elim (env.fetch_list []) [
  | ok remote ↦ adopt env auth pull_only (pulled_list ∷ []) remote
  | err e ↦ missed_pull env auth pull_only (pulled_list ∷ []) e
]

pub run_sync : Env → AniListAuth → ℤ → Bool → Bool → Run
unfolding usable_auth pull
run_sync env auth now enabled pull_only =
    if not enabled then summary (terminal disabled) [] else elim (usable_auth auth now) [
      | err o ↦ summary (terminal o) []
      | ok _ ↦ pull env auth pull_only
    ]

pub flush_push : Env → AniListAuth → ℤ → Bool → Run
unfolding usable_auth
flush_push env auth now enabled =
    if not enabled then summary (terminal disabled) [] else elim (usable_auth auth now) [
      | err o ↦ summary (terminal o) []
      | ok _ ↦ run_of (push_dirty env auth.score_format [] [] (terminal completed))
    ]
