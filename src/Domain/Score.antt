-- ===== src/Domain/Score.antt =====
-- src/domain.cpp, `to_anilist_score` and `from_anilist_score`. A wire score, a `double` of the source,
-- is its number of tenths. That is exact: the formats send whole points or tenths of a point, and the
-- source's only halves before a rounding (5/10, 10/20, 50/100 * 3 and so on) are exact in a double.
use shigoku.Common.{ℕ, ◌+◌, ◌*◌, ◌/◌, ◌≤◌, ◌≡◌, arith, min}
use shigoku.Domain.Types.{ScoreFormat, point100, point10_decimal, point10, point5, point3}

-- In tenths; rounding is to the nearest, halves up.
unfoldable pub to_anilist_score : ℕ → ScoreFormat → ℕ
to_anilist_score raw point100 = 10 * min raw 100
to_anilist_score raw point10_decimal = min raw 100
to_anilist_score raw point10 = 10 * ((min raw 100 + 5) / 10)
to_anilist_score raw point5 = 10 * ((min raw 100 + 10) / 20)
to_anilist_score raw point3 = 10 * ((3 * min raw 100 + 50) / 100)

-- From tenths.
unfoldable pub from_anilist_score : ℕ → ScoreFormat → ℕ
from_anilist_score wire point100 = min ((wire + 5) / 10) 100
from_anilist_score wire point10_decimal = min wire 100
from_anilist_score wire point10 = min wire 100
from_anilist_score wire point5 = min (2 * wire) 100
from_anilist_score wire point3 = min ((20 * wire + 3) / 6) 100

-- What the server is left holding, in raw points, after a push of a raw score.
unfoldable pub stored_score : ℕ → ScoreFormat → ℕ
unfolding to_anilist_score from_anilist_score
stored_score raw format = from_anilist_score (to_anilist_score raw format) format

-- The largest distance between a raw score and what a format can hold of it.
abbrev pub step_error : ScoreFormat → ℕ
step_error point100 = 0
step_error point10_decimal = 0
step_error point10 = 5
step_error point5 = 10
step_error point3 = 17

-- In every format, what the server stores of a raw score is at most 100, is stored as itself when it
-- is pushed again, and differs from the raw score (capped at 100) by at most 5, 10 or 17 points in the
-- 10-point, 5-star and 3-smiley formats and not at all in the other two; an unset score, 0, stays 0.
pub stored_score-stable :
    (raw : ℕ) (format : ScoreFormat)
    → (stored_score raw format ≤ 100)
      × (stored_score (stored_score raw format) format ≡ stored_score raw format)
      × (stored_score raw format ≤ min raw 100 + step_error format)
      × (min raw 100 ≤ stored_score raw format + step_error format)
      × (stored_score 0 format ≡ 0)
unfolding stored_score
stored_score-stable raw point100 = omega arith
stored_score-stable raw point10_decimal = omega arith
stored_score-stable raw point10 = omega arith
stored_score-stable raw point5 = omega arith
stored_score-stable raw point3 = omega arith
