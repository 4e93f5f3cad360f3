-- ===== src/Domain/Types.antt =====
-- src/domain.hpp: the closed enums, `Enrichment` (a catalog row) and `Show` (a library row). Text is
-- bytes, an `int64_t` an integer, an unsigned number a natural number. `Show::user_rating`, a
-- floating-point number that no modelled operation reads, is left out.
use shigoku.Common.{ℕ, Bool, List, Option, Bytes}
use shigoku.Common.Int.{ℤ}

pub data Translation : Type 0 where
  sub dub : Translation

pub data Quality : Type 0 where
  best p1080 p720 p480 worst : Quality

pub data Season : Type 0 where
  winter spring summer fall : Season

pub data TitleLanguage : Type 0 where
  romaji english native : TitleLanguage

pub data ListStatus : Type 0 where
  planning watching paused completed dropped : ListStatus

pub data ScoreFormat : Type 0 where
  point100 point10_decimal point10 point5 point3 : ScoreFormat

pub data Weekday : Type 0 where
  monday tuesday wednesday thursday friday saturday sunday : Weekday

pub record Date : Type 0 where
  pub year : ℕ
  pub month : Option ℕ
  pub day : Option ℕ

pub record Enrichment : Type 0 where
  pub anilist_id : ℤ
  pub mal_id : Option ℤ
  pub title_romaji : Bytes
  pub title_english : Option Bytes
  pub title_native : Option Bytes
  pub cover_url : Option Bytes
  pub total_episodes : Option ℕ
  pub duration_minutes : Option ℕ
  pub year : Option ℕ
  pub season : Option Season
  pub status : Option Bytes
  pub description : Option Bytes
  pub score : Option ℕ
  pub kind : Option Bytes
  pub start_date : Option Date
  pub genres : List Bytes
  pub studios : List Bytes
  pub source_material : Option Bytes
  pub rank : Option ℕ
  pub rank_type : Option Bytes
  pub rank_year : Option ℕ
  pub next_airing_at : Option ℤ
  pub next_airing_episode : Option ℕ
  pub country : Option Bytes

pub record Show : Type 0 where
  pub enrichment : Enrichment
  pub enrichment_fetched_at : Option ℤ
  pub enrichment_fieldset_version : Option ℕ
  pub list_status : ListStatus
  pub notes : Option Bytes
  pub play_count : ℕ
  pub progress : ℕ
  pub library_added_at : Option ℤ
  pub last_watched_at : Option ℤ
  pub synced_status : Option ListStatus
  pub synced_progress : Option ℕ
  pub user_score : Option ℕ
  pub synced_score : Option ℕ
  pub notice_last_episode : Option ℕ
  pub notice_pending : Bool
