-- ===== src/Domain/Enums.antt =====
-- src/domain.hpp: the string forms of the enums, and the small functions on them.
use shigoku.Common.{
  ℕ, ◌≡◌, refl, ◌⊎◌, ◌↔◌, inl, ◌<◌, ◌≤◌, ◌&&◌, Bool, true, false, Option, none, some, Bytes, codes,
  bytes_eq, arith, if◌then◌else◌, leb, ltb,
}
use shigoku.Domain.Types.{
  Translation, sub, dub, Quality, best, p1080, p720, p480, worst, Season, winter, spring, summer,
  fall, TitleLanguage, romaji, english, native, ListStatus, planning, watching, paused, completed,
  dropped, ScoreFormat, point100, point10_decimal, point10, point5, point3,
}

-- `to_string(Translation)` and `parse_translation`.
pub translation_to_string : Translation → Bytes
translation_to_string sub = codes "sub"
translation_to_string dub = codes "dub"

pub parse_translation : Bytes → Option Translation
parse_translation s =
    if bytes_eq s (codes "sub")
    then some sub
    else if bytes_eq s (codes "dub")
    then some dub
    else none

pub parse_quality : Bytes → Quality
parse_quality s =
    if bytes_eq s (codes "worst")
    then worst
    else if bytes_eq s (codes "480")
    then p480
    else if bytes_eq s (codes "720")
    then p720
    else if bytes_eq s (codes "1080")
    then p1080
    else best

unfoldable pub quality_cap : Quality → Option ℕ
quality_cap p1080 = some 1080
quality_cap p720 = some 720
quality_cap p480 = some 480
quality_cap best = none
quality_cap worst = none

pub season_as_str : Season → Bytes
season_as_str winter = codes "winter"
season_as_str spring = codes "spring"
season_as_str summer = codes "summer"
season_as_str fall = codes "fall"

unfoldable pub season_from_month : ℕ → Season
season_from_month month =
    if leb 3 month && leb month 5
    then spring
    else if leb 6 month && leb month 8
    then summer
    else if leb 9 month && leb month 11
    then fall
    else winter

pub parse_title_language : Bytes → TitleLanguage
parse_title_language s =
    if bytes_eq s (codes "english")
    then english
    else if bytes_eq s (codes "native")
    then native
    else romaji

-- `to_string(ListStatus)`.
pub list_status_to_string : ListStatus → Bytes
list_status_to_string planning = codes "planning"
list_status_to_string watching = codes "watching"
list_status_to_string paused = codes "paused"
list_status_to_string completed = codes "completed"
list_status_to_string dropped = codes "dropped"

pub parse_list_status : Bytes → ListStatus
parse_list_status s =
    if bytes_eq s (codes "watching")
    then watching
    else if bytes_eq s (codes "paused")
    then paused
    else if bytes_eq s (codes "completed")
    then completed
    else if bytes_eq s (codes "dropped")
    then dropped
    else planning

-- `to_string(ScoreFormat)`.
pub score_format_to_string : ScoreFormat → Bytes
score_format_to_string point100 = codes "POINT_100"
score_format_to_string point10_decimal = codes "POINT_10_DECIMAL"
score_format_to_string point10 = codes "POINT_10"
score_format_to_string point5 = codes "POINT_5"
score_format_to_string point3 = codes "POINT_3"

pub parse_score_format : Bytes → ScoreFormat
parse_score_format s =
    if bytes_eq s (codes "POINT_10_DECIMAL")
    then point10_decimal
    else if bytes_eq s (codes "POINT_10")
    then point10
    else if bytes_eq s (codes "POINT_5")
    then point5
    else if bytes_eq s (codes "POINT_3")
    then point3
    else point100

unfoldable pub eq_status : ListStatus → ListStatus → Bool
eq_status planning planning = true
eq_status watching watching = true
eq_status paused paused = true
eq_status completed completed = true
eq_status dropped dropped = true
eq_status _ _ = false

pub eq_status_iff : (a b : ListStatus) → (eq_status a b ≡ true) ↔ (a ≡ b)
unfolding eq_status
eq_status_iff planning b = (λ h. ground arith, λ h. ground arith)
eq_status_iff watching b = (λ h. ground arith, λ h. ground arith)
eq_status_iff paused b = (λ h. ground arith, λ h. ground arith)
eq_status_iff completed b = (λ h. ground arith, λ h. ground arith)
eq_status_iff dropped b = (λ h. ground arith, λ h. ground arith)

-- A play that reached `progress` moves the list status so.
unfoldable pub after_play_status : ListStatus → ℕ → Option ℕ → Bool → ListStatus
after_play_status completed progress total still_airing = completed
after_play_status cur progress total true = watching
after_play_status cur progress none false = watching
after_play_status cur progress (some t) false =
    if ltb 0 t && leb t progress then completed else watching

-- The stored spelling of every list status, score format and translation reads back as itself.
enums_read_back :
    ((s : ListStatus) → parse_list_status (list_status_to_string s) ≡ s)
    × ((f : ScoreFormat) → parse_score_format (score_format_to_string f) ≡ f)
    × ((t : Translation) → parse_translation (translation_to_string t) ≡ some t)
unfolding parse_list_status list_status_to_string parse_score_format score_format_to_string
    parse_translation translation_to_string bytes_eq
enums_read_back = (
  elim [ planning ↦ refl | watching ↦ refl | paused ↦ refl | completed ↦ refl | dropped ↦ refl ],
  elim [
    | point100 ↦ refl
    | point10_decimal ↦ refl
    | point10 ↦ refl
    | point5 ↦ refl
    | point3 ↦ refl
  ],
  elim [ sub ↦ refl | dub ↦ refl ],
)

-- A play completes a show exactly when the show was completed already, or has stopped airing with a
-- known positive episode count that the progress has reached.
pub after_play_status-completed :
    (cur : ListStatus) (progress : ℕ) (total : Option ℕ) (still_airing : Bool)
    → (after_play_status cur progress total still_airing ≡ completed)
      ↔ (cur ≡ completed)
        ⊎ ((still_airing ≡ false) × ((t : ℕ) × (total ≡ some t) × (0 < t) × (t ≤ progress)))
unfolding after_play_status
after_play_status-completed completed progress total still_airing = (λ _. inl refl, λ _. refl)
after_play_status-completed _ progress total still_airing = (λ h. ground arith, λ h. ground arith)
