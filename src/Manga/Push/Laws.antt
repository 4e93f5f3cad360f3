-- ===== src/Manga/Push/Laws.antt =====
-- What a push may write over the entry that the server holds.
use shigoku.Common.Int.{ℤ}
use shigoku.Domain.Enums.{eq_status, eq_status_iff}
use shigoku.Common.{
  ℕ, Bytes, Option, All, Bool, ◌≡◌, ◌<◌, length, false, ◌++◌, some, ◌≤◌, arith, none, ◌∷◌, ap, [],
  ◌*◌, ◌+◌, ◌-◌, refl, ◌≢◌, Bool-cases, ◌⊎◌, if◌then◌else◌, ◌==◌, inr, ◌||◌, inl, true,
}
use shigoku.Common.Decimal.{
  to_string, to_string-digits, to_string-pos, decimal, decimal-to_string, IsDigit, starts_digit,
  starts_digit-append, decimal-ge,
}
use shigoku.View.Cli.{skip_space}
use shigoku.Store.Types.{ok, err, ListEntry, Result-cases, ProviderError}
use shigoku.Domain.Types.{completed, watching}
use shigoku.Manga.Push.{
  pushed, is_at_or_past, remote_score, push_chapter, plan_push, push_planned, chapter_progress,
  floor_from, MangaListClient, Save, is_completed, read_failed, after_entry_saved,
}

floor_from-digits :
    (n : ℕ) (s rest : Bytes)
    → All IsDigit s
    → starts_digit rest ≡ false
    → decimal n s ≤ 9999999
    → floor_from n (s ++ rest) ≡ decimal n s
unfolding floor_from decimal
floor_from-digits n [] [] h apart small = refl
floor_from-digits n [] (c ∷ rest) h apart small = ground arith
floor_from-digits n (c ∷ s) rest h apart small = ground (
  arith,
  decimal-ge (n * 10 + (c - 0x30)) s,
  floor_from-digits (n * 10 + (c - 0x30)) s rest h.1 apart small,
)

skip_space-digits :
    (s rest : Bytes) → All IsDigit s → 0 < length s → skip_space (s ++ rest) ≡ s ++ rest
unfolding skip_space
skip_space-digits [] rest h k = absurd (omega arith)
skip_space-digits (c ∷ s) rest h k = ground arith

-- A chapter whose number starts with the digits of `n`, up to ten million, counts as `n`, whatever
-- follows the digits: a half chapter counts as the whole one before it.
pub chapter_progress-floor :
    (n : ℕ) (rest : Bytes)
    → starts_digit rest ≡ false
    → n ≤ 9999999
    → chapter_progress (to_string n ++ rest) ≡ some n
unfolding chapter_progress
chapter_progress-floor n rest apart small =
    let digits = to_string-digits n in
    let e = decimal-to_string n in
    rw (skip_space-digits (to_string n) rest digits (to_string-pos n)) (
      rw (starts_digit-append (to_string n) rest digits (to_string-pos n))
        (rw (floor_from-digits 0 (to_string n) rest digits apart (omega (arith, e))) (ap some e)))

-- The save moves the entry forward, with its score, and a completed entry stays completed; a new entry
-- has no score.
abbrev pub IsKept : Option ListEntry → Save → Type 0
IsKept none s = s.score ≡ 0
IsKept (some e) s =
    (e.progress < s.progress)
    × (s.score ≡ e.score)
    × ((e.status ≢ completed) ⊎ (s.status ≡ completed))

-- What is known of a save that was sent.
abbrev pub IsForward : MangaListClient → ℕ → Save → Type 0
IsForward client want s =
    (remote : Option ListEntry) × (client.fetch_entry ≡ ok remote)
    × (s.progress ≡ want)
    × (0 < s.progress)
    × IsKept remote s

status-kept :
    (e : ListEntry) (finishes : Bool)
    → (e.status ≢ completed)
      ⊎ ((if finishes || eq_status e.status completed then completed else watching) ≡ completed)
status-kept e true = inr refl
status-kept e false = elim (Bool-cases (eq_status e.status completed)) [
  | inl done ↦ inr (rw done refl)
  | inr open_yet ↦ inl (λ h. cc ((eq_status_iff e.status completed).1 h))
]

sent-IsForward :
    (client : MangaListClient) (want : ℕ) (finishes : Bool) (remote : Option ListEntry)
    → client.fetch_entry ≡ ok remote
    → 0 < want
    → is_at_or_past remote want ≡ false
    → IsForward client want (record {
      status = if finishes || is_completed remote then completed else watching;
      progress = want;
      score = remote_score remote;
    })
sent-IsForward client want finishes none read some_want ahead = (none, read, refl, some_want, refl)
sent-IsForward client want finishes (some e) read some_want ahead =
    (some e, read, refl, some_want, (ground arith, refl, status-kept e finishes))

planned-IsForward :
    (client : MangaListClient) (want : ℕ) (finishes : Bool) (remote : Option ListEntry)
    → client.fetch_entry ≡ ok remote
    → (length (push_planned client (plan_push remote want finishes)).1 ≤ 1)
      × All (IsForward client want) (push_planned client (plan_push remote want finishes)).1
unfolding plan_push push_planned
planned-IsForward client want finishes remote read = elim (Bool-cases (want == 0)) [
  | inl nothing ↦ rw nothing (omega arith, tt)
  | inr some_want ↦ elim (Bool-cases (is_at_or_past remote want)) [
    | inl past ↦ rw some_want (rw past (omega arith, tt))
    | inr ahead ↦ rw some_want (
        rw ahead
          (omega arith, (sent-IsForward client want finishes remote read (ground arith) ahead, tt)))
  ]
]

push_chapter-failed :
    (client : MangaListClient) (want : ℕ) (finishes : Bool) (e : ProviderError)
    → client.fetch_entry ≡ err e
    → push_chapter client want finishes ≡ (read_failed e, [])
unfolding push_chapter
push_chapter-failed client want finishes e h = rw (h, push_chapter) refl

push_chapter-read :
    (client : MangaListClient) (want : ℕ) (finishes : Bool) (remote : Option ListEntry)
    → client.fetch_entry ≡ ok remote
    → push_chapter client want finishes ≡ push_planned client (plan_push remote want finishes)
unfolding push_chapter push_planned
push_chapter-read client want finishes remote h = rw (h, push_chapter) refl

-- Whatever AniList answers, a push sends at most one save, and only after the entry was read: the save
-- writes the chapter that was read, which is beyond what the server shows, with the score that the
-- server holds, and an entry that is completed stays so.
pub push_chapter-IsForward :
    (client : MangaListClient) (want_progress : ℕ) (finishes_series : Bool)
    → (length (push_chapter client want_progress finishes_series).1 ≤ 1)
      × All (IsForward client want_progress) (push_chapter client want_progress finishes_series).1
push_chapter-IsForward client want finishes = elim (Result-cases client.fetch_entry) [
  | inr (e, failed) ↦ rw (push_chapter-failed client want finishes e failed) (omega arith, tt)
  | inl (remote, read) ↦
      rw (push_chapter-read client want finishes remote read)
        (planned-IsForward client want finishes remote read)
]

-- Behind what was read, by the server's word.
abbrev pub IsBehind : Option ListEntry → ℕ → Type 0
IsBehind none want = Unit {0}
IsBehind (some e) want = e.progress < want

behind-ahead :
    (remote : Option ListEntry) (want : ℕ)
    → IsBehind remote want
    → is_at_or_past remote want ≡ false
behind-ahead none want h = refl
behind-ahead (some e) want h = ground arith

planned-pushed :
    (client : MangaListClient) (want : ℕ) (finishes : Bool) (remote : Option ListEntry) (id : ℤ)
    → ((s : Save) → client.save_entry s ≡ ok id)
    → 0 < want
    → is_at_or_past remote want ≡ false
    → (push_planned client (plan_push remote want finishes)).0 ≡ pushed want
unfolding plan_push push_planned
planned-pushed client want finishes remote id saves some_want ahead =
    let not_zero : (want == 0) ≡ false = ground arith in
    rw not_zero (rw ahead (ap (after_entry_saved want) (saves _)))

-- An entry that is behind the chapter is moved, if AniList answers the read and accepts the save.
pub push_chapter-pushed :
    (client : MangaListClient) (want_progress : ℕ) (finishes_series : Bool)
    (remote : Option ListEntry) (id : ℤ)
    → client.fetch_entry ≡ ok remote
    → ((s : Save) → client.save_entry s ≡ ok id)
    → 0 < want_progress
    → IsBehind remote want_progress
    → (push_chapter client want_progress finishes_series).0 ≡ pushed want_progress
push_chapter-pushed client want finishes remote id read saves some_want behind =
    rw (push_chapter-read client want finishes remote read) (
      planned-pushed client want finishes remote id saves some_want
        (behind-ahead remote want behind))
