-- ===== src/Store/Finish.antt =====
-- src/store.cpp and src/domain.hpp: the end of a play. `Reals` stands for `double`: its values, its
-- order and division, and the constants of the program. `Database` answers for the statements.
pub mod Laws
pub mod Tests
use shigoku.Store.Apply.{any_row}
use shigoku.Store.Providers.{Database}
use shigoku.Domain.Enums.{translation_to_string, after_play_status}
use shigoku.Domain.Types.{Translation, ListStatus}
use shigoku.Store.Rows.{Table, Row, update_where, has_id, coalesce, status_row}
use shigoku.Store.Keyed.{Keyed, upsert}
use shigoku.Common.{
  Bool, Bytes, ◌≡◌, Option, ℕ, ◌&&◌, true, if◌then◌else◌, List, bytes_eq, ◌↔◌, some, not, ◌+◌, max,
  arith, codes, ◌==◌, none, false, bytes_eq_iff,
}
use shigoku.Common.Int.{ℤ, eq_ℤ, eq_ℤ_iff}
use shigoku.Domain.Airing.{is_still_airing}
use shigoku.Store.Types.{non_finite_position, Result, StoreError, ok, err}

pub record Reals : Type 1 where
  pub Real : Type 0
  pub is_finite : Real → Bool
  pub lt : Real → Real → Bool
  pub le : Real → Real → Bool
  pub div : Real → Real → Real
  pub zero_secs : Real
  pub watched_ratio : Real
  pub natural_end_ratio : Real
  pub counted_ratio : Real
  pub counted_min_secs : Real

abbrev pub ProgressKey : Type 0
ProgressKey = ℤ × Bytes × Bytes

abbrev pub eq_progress_key : ProgressKey → ProgressKey → Bool
eq_progress_key (i, t, a) (j, u, b) = eq_ℤ i j && bytes_eq t u && bytes_eq a b

pub eq_progress_key_iff : (j k : ProgressKey) → (eq_progress_key j k ≡ true) ↔ (j ≡ k)
eq_progress_key_iff (i, t, a) (j, u, b) =
    ground (arith, eq_ℤ_iff i j, bytes_eq_iff t u, bytes_eq_iff a b)

module _ (n : Reals) where
  open n use {Real, is_finite, lt, le, div, zero_secs}

  unfoldable pub natural_end : Real → Real → Bool
  natural_end position duration =
      lt zero_secs duration && le n.natural_end_ratio (div position duration)

  unfoldable pub play_counts : Real → Real → Bool
  play_counts position duration =
      if lt zero_secs duration
      then le n.counted_ratio (div position duration)
      else le n.counted_min_secs position

  unfoldable pub is_watched : Real → Real → Bool
  is_watched position duration = lt zero_secs duration && le n.watched_ratio (div position duration)

  -- A row of `episode_progress`; the translation is stored as its text.
  pub record ProgressRow : Type 0 where
    pub anilist_id : ℤ
    pub translation : Bytes
    pub episode : Bytes
    pub position_secs : Real
    pub duration_secs : Real
    pub fully_watched : Bool
    pub updated_at : ℤ
    pub last_provider : Option Bytes

  abbrev pub progress_key : Keyed ProgressKey ProgressRow
  progress_key = record {
    key = λ r. (r.anilist_id, r.translation, r.episode);
    eq_key = eq_progress_key;
    eq_key_iff = eq_progress_key_iff;
  }

  pub record PlayTables : Type 0 where
    pub shows : Table
    pub progress : List ProgressRow

  -- What a play reports.
  pub record Play : Type 0 where
    pub anilist_id : ℤ
    pub translation : Translation
    pub episode : Bytes
    pub position_secs : Real
    pub duration_secs : Real
    pub last_provider : Option Bytes
    pub now : ℤ

  abbrev pub progress_row : Play → ProgressRow
  progress_row p = record {
    anilist_id = p.anilist_id;
    translation = translation_to_string p.translation;
    episode = p.episode;
    position_secs = p.position_secs;
    duration_secs = p.duration_secs;
    fully_watched = is_watched p.position_secs p.duration_secs;
    updated_at = p.now;
    last_provider = p.last_provider;
  }

  -- The foreign key wants a show.
  unfoldable pub upsert_progress :
      Option StoreError → StoreError → Play → PlayTables → Result StoreError PlayTables
  upsert_progress (some e) constraint p t = err e
  upsert_progress none constraint p t =
      if any_row (has_id p.anilist_id) t.shows
      then ok (record t {
        progress =
            upsert progress_key (progress_row p)
              (λ r. record (progress_row p) {
                anilist_id = r.anilist_id;
                translation = r.translation;
                episode = r.episode;
              })
              t.progress;
      })
      else err constraint

  abbrev pub all_finite : Play → Bool
  all_finite p = is_finite p.position_secs && is_finite p.duration_secs

  abbrev pub non_finite : Bytes → StoreError
  non_finite why = record { kind = non_finite_position; detail = why; found = 0; expected = 0 }

  abbrev pub or_left {ℓ} :
      {A : Type ℓ}
      → A
      → PlayTables
      → Result StoreError PlayTables
      → Result StoreError A × PlayTables
  or_left a t (ok t') = (ok a, t')
  or_left a t (err e) = (err e, t)

  unfoldable pub save_progress :
      Database → Play → PlayTables → Result StoreError (Unit {0}) × PlayTables
  unfolding upsert_progress
  save_progress d p t =
      if not (all_finite p)
      then (err (non_finite (codes "save_progress: non-finite position/duration")), t)
      else or_left tt t (upsert_progress (d.fault 0) d.constraint p t)

  unfoldable pub engaged : ℕ → ListStatus → ℤ → Row → Row
  engaged new_progress new_status now r = record r {
    play_count = r.play_count + 1;
    last_watched_at = some now;
    progress = new_progress;
    progress_stamped_at = if r.progress == new_progress then r.progress_stamped_at else some now;
    list_status = new_status;
    library_added_at = coalesce r.library_added_at now;
  }

  unfoldable pub bump_engagement :
      Option StoreError → ℤ → ℕ → ListStatus → ℤ → PlayTables → Result StoreError PlayTables
  bump_engagement (some e) id new_progress new_status now t = err e
  bump_engagement none id new_progress new_status now t =
      ok (record t {
        shows = update_where (has_id id) (engaged new_progress new_status now) t.shows;
      })

  unfoldable pub finish_progress : Play → ℕ → Row → ℕ
  finish_progress p episode_index cur =
      if natural_end p.position_secs p.duration_secs
      then max cur.progress episode_index
      else cur.progress

  unfoldable pub finish_status : Play → ℕ → Row → ListStatus
  finish_status p episode_index cur =
      after_play_status cur.list_status (finish_progress p episode_index cur) cur.total_episodes
        (is_still_airing cur.status)

  abbrev pub then_bump :
      Database → Play → ℕ → Row → Result StoreError PlayTables → Result StoreError PlayTables
  then_bump d p episode_index cur (err e) = err e
  then_bump d p episode_index cur (ok t) =
      if play_counts p.position_secs p.duration_secs
      then bump_engagement (d.fault 3) p.anilist_id (finish_progress p episode_index cur)
          (finish_status p episode_index cur) p.now t
      else ok t

  abbrev pub then_commit :
      Option StoreError → Result StoreError PlayTables → Result StoreError PlayTables
  then_commit fault (err e) = err e
  then_commit none (ok t) = ok t
  then_commit (some e) (ok t) = err e

  unfoldable pub finish_row :
      Database → Play → ℕ → PlayTables → Option Row → Result StoreError Bool × PlayTables
  finish_row d p episode_index t none = (ok false, t)
  finish_row d p episode_index t (some cur) =
      or_left (play_counts p.position_secs p.duration_secs) t (
        then_commit (d.fault 4)
          (then_bump d p episode_index cur (upsert_progress (d.fault 2) d.constraint p t)))

  abbrev pub unless_fault :
      Option StoreError
      → PlayTables
      → Result StoreError Bool × PlayTables
      → Result StoreError Bool × PlayTables
  unless_fault none t next = next
  unless_fault (some e) t next = (err e, t)

  -- The answer: whether the play counted.
  unfoldable pub record_finish :
      Database → Play → ℕ → PlayTables → Result StoreError Bool × PlayTables
  unfolding finish_row
  record_finish d p episode_index t =
      if not (all_finite p)
      then (err (non_finite (codes "record_finish: non-finite position/duration")), t)
      else if episode_index == 0
      then (ok false, t)
      else unless_fault (d.fault 0) t (
          unless_fault (d.fault 1) t
            (finish_row d p episode_index t (status_row p.anilist_id t.shows)))
