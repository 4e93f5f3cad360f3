-- ===== src/Domain/Airing/Laws.antt =====
-- src/domain.cpp: episodes aired, watched and announced.
use shigoku.Common.{
  ℕ, suc, ◌+◌, ◌≤◌, ◌<◌, ◌≡◌, ◌≢◌, refl, true, List, [], ◌∷◌, none, some, arith, Option-cases, inl,
  inr, All, get_elem?, value_or, ◌⊎◌,
}
use shigoku.Common.Int.{ℤ}
use shigoku.Domain.Types.{Show}
use shigoku.Domain.Airing.{
  aired_episodes, episodes_behind, notice_of, notices_from, detect_schedule_notices, ScheduleNotice,
  is_past, calendar_status,
}

-- Adding what is behind to the progress gives the aired episodes, and nothing is behind exactly when
-- the count of aired episodes is unknown or the progress has reached it.
pub episodes_behind_lem :
    (s : Show) (now : ℤ)
    → ((aired : ℕ)
        → aired_episodes s.enrichment now ≡ some aired
        → aired ≤ s.progress + episodes_behind s now)
      × ((episodes_behind s now ≢ 0)
          → aired_episodes s.enrichment now ≡ some (s.progress + episodes_behind s now))
unfolding episodes_behind
episodes_behind_lem s now = elim (Option-cases (aired_episodes s.enrichment now)) [
  | inl e ↦ (λ aired h. ground arith, λ h. ground arith)
  | inr (n, e) ↦ (λ aired h. ground arith, λ h. ground arith)
]

-- A show with its mark moved up to an episode that was announced.
abbrev pub noted : ℕ → Show → Show
noted episode s = record s { notice_last_episode = some episode; notice_pending = true }

-- An announced episode is positive, is above the show's mark, has aired on a show on the calendar, and
-- once the mark is moved up to it, the show announces nothing more at that time or any other.
notice_of_lem :
    (s : Show) (now : ℤ) (n : ℕ)
    → notice_of s now ≡ some n
    → (0 < n)
      × (value_or s.notice_last_episode 0 < n)
      × (s.enrichment.next_airing_episode ≡ some n)
      × (is_past s.enrichment.next_airing_at now ≡ true)
      × (calendar_status s.list_status ≡ true)
unfolding notice_of
notice_of_lem s now n h = ground arith

noted-silent :
    (s : Show) (n : ℕ) (later : ℤ)
    → s.enrichment.next_airing_episode ≡ some n
    → notice_of (noted n s) later ≡ none
unfolding notice_of
noted-silent s n later e = ground arith

-- What a notice says: the episode is the next one of the show that it names, at its place; it is out,
-- and above the show's mark; and with the mark moved up, the show is silent about that episode for good.
pub record IsNews (shows : List Show) (i : ℕ) (now : ℤ) (n : ScheduleNotice) : Type 0 where
  pub place : ℕ
  pub show : Show
  pub counts : n.show_index ≡ i + place
  pub at : get_elem? shows place ≡ some show
  pub next : show.enrichment.next_airing_episode ≡ some n.episode
  pub positive : 0 < n.episode
  pub above : value_or show.notice_last_episode 0 < n.episode
  pub out : is_past show.enrichment.next_airing_at now ≡ true
  pub on_calendar : calendar_status show.list_status ≡ true
  pub silent : (later : ℤ) → notice_of (noted n.episode show) later ≡ none

IsNews-later :
    (s : Show) (shows : List Show) (i : ℕ) (now : ℤ) (n : ScheduleNotice)
    → IsNews shows (suc i) now n
    → IsNews (s ∷ shows) i now n
IsNews-later s shows i now n w = record {
  place = suc w.place;
  show = w.show;
  counts = omega (arith, w.counts);
  at = w.at;
  next = w.next;
  positive = w.positive;
  above = w.above;
  out = w.out;
  on_calendar = w.on_calendar;
  silent = w.silent;
}

All-IsNews-later :
    (s : Show) (shows : List Show) (i : ℕ) (now : ℤ) (ns : List ScheduleNotice)
    → All (IsNews shows (suc i) now) ns
    → All (IsNews (s ∷ shows) i now) ns
All-IsNews-later s shows i now [] a = tt
All-IsNews-later s shows i now (n ∷ ns) a =
    (IsNews-later s shows i now n a.0, All-IsNews-later s shows i now ns a.1)

notices_from-IsNews :
    (i : ℕ) (shows : List Show) (now : ℤ) → All (IsNews shows i now) (notices_from i shows now)
unfolding notices_from
notices_from-IsNews i [] now = tt
notices_from-IsNews i (s ∷ shows) now =
    let rest = All-IsNews-later s shows i now _ (notices_from-IsNews (suc i) shows now) in
    elim (Option-cases (notice_of s now)) [
      | inl e ↦ rw e rest
      | inr (n, e) ↦
          let why = notice_of_lem s now n e in
          rw e (
            record {
              place = 0;
              show = s;
              counts = omega arith;
              at = refl;
              next = why.2;
              positive = why.0;
              above = why.1;
              out = why.3;
              on_calendar = why.4;
              silent = λ later. noted-silent s n later why.2;
            },
            rest,
          )
    ]

-- A show on the calendar with an episode that is out and above the mark.
abbrev pub HasNews : Show → ℤ → ℕ → Type 0
HasNews s now n =
    (s.enrichment.next_airing_episode ≡ some n)
    × (0 < n)
    × (value_or s.notice_last_episode 0 < n)
    × (is_past s.enrichment.next_airing_at now ≡ true)
    × (calendar_status s.list_status ≡ true)

notice_of-news : (s : Show) (now : ℤ) (n : ℕ) → HasNews s now n → notice_of s now ≡ some n
unfolding notice_of
notice_of-news s now n h = ground arith

notice_of-silent : (s : Show) (now : ℤ) → notice_of s now ≡ none → (n : ℕ) → HasNews s now n → ⊥
notice_of-silent s now e n h = cc (notice_of-news s now n h, e)

-- Every show of the list, from place `k` on, has no news, or there is a notice of its news.
abbrev pub IsTold : ℕ → List Show → ℤ → List ScheduleNotice → Type 0
IsTold k [] now ns = Unit
IsTold k (s ∷ shows) now ns =
    (((n : ℕ) → ¬ HasNews s now n)
      ⊎ ((j n : ℕ) × (get_elem? ns j ≡ some (record { show_index = k; episode = n }))
          × HasNews s now n))
    × IsTold (suc k) shows now ns

IsTold-later :
    (k : ℕ) (shows : List Show) (now : ℤ) (x : ScheduleNotice) (ns : List ScheduleNotice)
    → IsTold k shows now ns
    → IsTold k shows now (x ∷ ns)
IsTold-later k [] now x ns told = tt
IsTold-later k (s ∷ shows) now x ns (inl silent, rest) =
    (inl silent, IsTold-later (suc k) shows now x ns rest)
IsTold-later k (s ∷ shows) now x ns (inr (j, n, at, news), rest) =
    (inr (suc j, n, at, news), IsTold-later (suc k) shows now x ns rest)

notices_from-IsTold :
    (k : ℕ) (shows : List Show) (now : ℤ) → IsTold k shows now (notices_from k shows now)
unfolding notices_from
notices_from-IsTold k [] now = tt
notices_from-IsTold k (s ∷ shows) now =
    let rest = notices_from-IsTold (suc k) shows now in
    elim (Option-cases (notice_of s now)) [
      | inl e ↦ rw e (inl (notice_of-silent s now e), rest)
      | inr (n, e) ↦
          let (positive, above, next, out, listed) = notice_of_lem s now n e in
          rw e (
            inr (0, n, refl, (next, positive, above, out, listed)),
            IsTold-later (suc k) shows now (record { show_index = k; episode = n }) _ rest,
          )
    ]

-- Every schedule notice names a show of the list, on the calendar, and its next episode, which is out
-- and above the show's mark; with that mark moved up to the episode, the show raises no notice any
-- more, at any time, until its next episode changes. And every show of the list that has such an
-- episode gets a notice of it.
pub detect_schedule_notices-IsNews :
    (shows : List Show) (now : ℤ)
    → All (IsNews shows 0 now) (detect_schedule_notices shows now)
      × IsTold 0 shows now (detect_schedule_notices shows now)
unfolding detect_schedule_notices
detect_schedule_notices-IsNews shows now =
    (notices_from-IsNews 0 shows now, notices_from-IsTold 0 shows now)
