-- ===== src/Sync/Tests.antt =====
-- The sync at a concrete server and store: one dirty row, whose first guard meets a rate limit.
use shigoku.Domain.Enums.{eq_status}
use shigoku.Sync.Airing.{AiringRow, refresh_airing}
use shigoku.Sync.Airing.Requests.{rows_of}
use shigoku.Sync.Airing.Wanted.{StampedAt, IsDue, IsAnswer, refresh_airing-Stamped}
use shigoku.Sync.Airing.Written.{refresh_airing-last}
use shigoku.Store.WorkList.{list_airing_candidates, is_airing_candidate, order_by, insert_row}
use shigoku.Store.Rows.{Row}
use shigoku.Common.{
  refl, true, false, [], ◌∷◌, Option, none, codes, arith, List, some, get_elem?, ◌++◌, ◌≡◌, keep_if,
}
use shigoku.Common.Int.{pos, ℤ}
use shigoku.Domain.Types.{watching, point5}
use shigoku.Store.Types.{
  Result, ok, err, AiringCandidate, ProviderError, ErrorKind, ListEntry, SyncRow, no_pull,
}
use shigoku.Sync.Types.{slept, Log, Env, AniListAuth, terminal, completed}
use shigoku.Sync.Push.{push_dirty}
use shigoku.Sync.Push.Count.{Ends, push_dirty-Ends}
use shigoku.Sync.Run.{run_sync, flush_push}
use shigoku.Sync.Run.Safe.{IsSafeRun, run_sync-IsSafeRun}

abbrev dirty_row : SyncRow
dirty_row = record {
  anilist_id = pos 7;
  title_romaji = codes "Mushishi";
  list_status = watching;
  progress = 3;
  score = 75;
  synced = none;
}

abbrev throttled : ProviderError
throttled = record { kind = ErrorKind.rate_limited; status = 429; detail = [] }

-- Refuses the first look at an entry, and then holds no entry.
abbrev first_refused : Log → Result ProviderError (Option ListEntry)
first_refused (slept ms ∷ log) = ok none
first_refused _ = err throttled

abbrev env : Env
env = record {
  fetch_list = λ log. ok [];
  fetch_entry = λ log id. first_refused log;
  save_entry = λ log row. ok (pos 1);
  reconcile_pull = λ log remote. ok no_pull;
  list_dirty_for_sync = λ log. ok (dirty_row ∷ []);
  mark_synced = λ log row stored. ok tt;
}

abbrev account : AniListAuth
account = record {
  access_token = codes "token";
  expires_at = pos 0;
  user_id = pos 5;
  score_format = point5;
}

push_dirty-Ends_example : Ends 1 (push_dirty env point5 [] [] (terminal completed))
push_dirty-Ends_example = push_dirty-Ends env point5 [] [] (dirty_row ∷ []) refl (omega arith)

run_sync-IsSafeRun_example :
    IsSafeRun (run_sync env account (pos 100) true false)
    × IsSafeRun (flush_push env account (pos 100) true)
run_sync-IsSafeRun_example = run_sync-IsSafeRun env account (pos 100) true false

abbrev calendar_row : Row
calendar_row = record {
  anilist_id = pos 7;
  mal_id = none;
  title_romaji = [];
  status = none;
  total_episodes = none;
  next_airing_at = none;
  next_airing_episode = none;
  list_status = watching;
  progress = 3;
  play_count = 0;
  progress_stamped_at = none;
  library_added_at = some (pos 1);
  last_watched_at = none;
  user_score = none;
  synced_status = none;
  synced_progress = none;
  synced_score = none;
  mal_synced_status = none;
  mal_synced_progress = none;
  mal_synced_score = none;
  notice_last_episode = none;
  notice_pending = false;
}

abbrev announced : List ℤ → List ℤ → Result ProviderError (List AiringRow)
announced ids mal_ids = ok (
    record {
      anilist_id = pos 7;
      mal_id = none;
      next_airing_at = some (pos 500);
      next_airing_episode = some 4;
    }
    ∷ [])

refresh_airing-Stamped_example :
    StampedAt
      (IsDue announced none (pos 9) (calendar_row ∷ []))
      (IsAnswer announced none (pos 9) (calendar_row ∷ []))
      0
      calendar_row
      (rows_of (refresh_airing announced none (λ r. none) (pos 9) (calendar_row ∷ [])))
refresh_airing-Stamped_example =
    refresh_airing-Stamped announced none (pos 9) (calendar_row ∷ []) (λ r. none) 0 calendar_row
      refl

abbrev answer : AiringRow
answer = record {
  anilist_id = pos 7;
  mal_id = none;
  next_airing_at = some (pos 500);
  next_airing_episode = some 4;
}

abbrev due : AiringCandidate
due = record { anilist_id = pos 7; mal_id = calendar_row.mal_id }

is_due_now : list_airing_candidates none (pos 9) (calendar_row ∷ []) ≡ ok (due ∷ [])
unfolding list_airing_candidates is_airing_candidate order_by insert_row keep_if eq_status
is_due_now = refl

refresh_airing-last_example :
    get_elem?
      (rows_of (
        refresh_airing
          (λ ids mal_ids. ok ([] ++ answer ∷ []))
          none
          (λ y. none)
          (pos 9)
          (calendar_row ∷ [])))
      0
    ≡ some (record calendar_row { next_airing_at = some (pos 500); next_airing_episode = some 4 })
refresh_airing-last_example =
    refresh_airing-last [] answer (pos 9) (calendar_row ∷ []) 0 calendar_row (due ∷ []) 0 due refl
      is_due_now refl refl refl (omega arith)
