-- ===== src/Mirror/Tests.antt =====
-- The push to MAL at a sample account.
use shigoku.Mirror.Pull.Rolls.{KeepsPair, pull_mirror-KeepsPair}
use shigoku.Mirror.Pull.{MalAuth, PullEnv, rolled, pull_mirror}
use shigoku.Common.{true, none, some, [], ◌∷◌, codes}
use shigoku.Common.Int.{pos}
use shigoku.Domain.Types.{watching}
use shigoku.Store.Types.{ok, MalMirrorRow, no_pull}
use shigoku.Mirror.Push.{MirrorEnv, push_mirror}
use shigoku.Mirror.Push.Guarded.{SafeMirrorLog, log_of, push_mirror-Safe}

abbrev row : MalMirrorRow
row = record {
  anilist_id = pos 7;
  mal_id = pos 70;
  list_status = watching;
  progress = 3;
  score = 0;
  synced = none;
  synced_score = none;
}

abbrev account : MirrorEnv
account = record {
  list_dirty = λ log. ok (row ∷ []);
  fetch_entry = λ log id. ok none;
  save_entry = λ log r score. ok tt;
  mark_mal_synced = λ log r score. ok tt;
}

push_mirror-Safe_example : SafeMirrorLog (log_of (push_mirror account (some (codes "token")) true))
push_mirror-Safe_example = push_mirror-Safe account (some (codes "token")) true

abbrev stale : MalAuth
stale = record { access_token = codes "old"; refresh_token = codes "refresh"; expires_at = pos 5 }

abbrev renewing : PullEnv
renewing = record {
  fetch_list = λ log token. ok [];
  refresher =
      some (λ auth now. rolled (record auth { access_token = codes "new"; expires_at = pos 99 }));
  reconcile_mal_pull = λ remote. ok no_pull;
}

pull_mirror-KeepsPair_example : KeepsPair (pull_mirror renewing (pos 9) stale true)
pull_mirror-KeepsPair_example = pull_mirror-KeepsPair renewing (pos 9) stale true
