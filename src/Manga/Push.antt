-- ===== src/Manga/Push.antt =====
-- src/manga/msync.cpp: a chapter that was read is pushed to AniList. The client's answers are arguments;
-- a run also gives the saves that it sent.
pub mod Laws
use shigoku.Domain.Enums.{eq_status}
use shigoku.Common.Int.{ℤ}
use shigoku.Common.{
  ℕ, Bytes, Bool, false, Option, List, ◌∷◌, if◌then◌else◌, some, [], codes, ltb, leb, none, ◌==◌,
  not, ◌++◌, ◌*◌, true, ◌+◌, ◌||◌, ◌-◌, ◌&&◌,
}
use shigoku.Common.Decimal.{to_string, starts_digit}
use shigoku.View.Cli.{skip_space}
use shigoku.Store.Types.{Result, ok, err, ListEntry, ProviderError}
use shigoku.Domain.Types.{ListStatus, watching, completed}

-- The digits after the value so far; from a million on a digit is passed over.
unfoldable pub floor_from : ℕ → Bytes → ℕ
floor_from n [] = n
floor_from n (c ∷ s) =
    let rest = floor_from (if ltb n 1000000 then n * 10 + (c - 0x30) else n) s in
    if leb 0x30 c && leb c 0x39 then rest else n

unfoldable pub chapter_progress : Bytes → Option ℕ
unfolding skip_space floor_from
chapter_progress chapter =
    let text = skip_space chapter in if starts_digit text then some (floor_from 0 text) else none

pub record MgPushPlan : Type 0 where
  pub push : Bool
  pub progress : ℕ
  pub status : ListStatus
  pub score : ℕ

abbrev pub no_push : MgPushPlan
no_push = record { push = false; progress = 0; status = watching; score = 0 }

abbrev pub is_at_or_past : Option ListEntry → ℕ → Bool
is_at_or_past none want = false
is_at_or_past (some e) want = leb want e.progress

abbrev pub remote_score : Option ListEntry → ℕ
remote_score none = 0
remote_score (some e) = e.score

abbrev pub is_completed : Option ListEntry → Bool
is_completed none = false
is_completed (some e) = eq_status e.status completed

unfoldable pub plan_push : Option ListEntry → ℕ → Bool → MgPushPlan
plan_push remote want_progress finishes_series =
    if want_progress == 0
    then no_push
    else if is_at_or_past remote want_progress
    then no_push
    else record {
      push = true;
      progress = want_progress;
      status = if finishes_series || is_completed remote then completed else watching;
      score = remote_score remote;
    }

pub data MgSyncResult : Type 0 where
  pushed : ℕ → MgSyncResult
  up_to_date : MgSyncResult
  read_failed : ProviderError → MgSyncResult
  push_failed : ProviderError → MgSyncResult

-- What a `save_entry` sends.
pub record Save : Type 0 where
  pub status : ListStatus
  pub progress : ℕ
  pub score : ℕ

pub record MangaListClient : Type 0 where
  pub fetch_entry : Result ProviderError (Option ListEntry)
  pub save_entry : Save → Result ProviderError ℤ

abbrev save_of : MgPushPlan → Save
save_of plan = record { status = plan.status; progress = plan.progress; score = plan.score }

abbrev pub after_entry_saved : ℕ → Result ProviderError ℤ → MgSyncResult
after_entry_saved progress (ok id) = pushed progress
after_entry_saved progress (err e) = push_failed e

unfoldable pub push_planned : MangaListClient → MgPushPlan → MgSyncResult × List Save
push_planned client plan =
    if not plan.push
    then (up_to_date, [])
    else (after_entry_saved plan.progress (client.save_entry (save_of plan)), save_of plan ∷ [])

unfoldable pub push_chapter : MangaListClient → ℕ → Bool → MgSyncResult × List Save
unfolding plan_push push_planned
push_chapter client want_progress finishes_series = elim client.fetch_entry [
  | err e ↦ (read_failed e, [])
  | ok remote ↦ push_planned client (plan_push remote want_progress finishes_series)
]

unfoldable pub msync_result_text : MgSyncResult → Bytes
msync_result_text (pushed n) = codes "anilist " ++ (0xC2 ∷ 0xB7 ∷ codes " ch " ++ to_string n)
msync_result_text up_to_date = codes "anilist already up to date"
msync_result_text (read_failed e) =
    codes "anilist unreachable " ++ (0xC2 ∷ 0xB7 ∷ codes " not synced")
msync_result_text (push_failed e) = codes "anilist push failed"
