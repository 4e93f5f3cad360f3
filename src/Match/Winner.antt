-- ===== src/Match/Winner.antt =====
-- `clear_winner` of src/resolver.cpp, over the list of the scores: the top one, unless it is below the
-- floor or too close to a runner-up that is not negative.
pub mod Laws
pub mod Wins
use shigoku.Common.{
  ℕ, zero, suc, Bool, true, false, not, ◌&&◌, ◌||◌, List, [], ◌∷◌, Option, none, some,
  if◌then◌else◌, has_value,
}
use shigoku.Common.Int.{ℤ, pos, negsuc, ltb_ℤ, ◌-ℤ◌}

-- `kBestFloor`, `kMatchMargin`, and the least `int32_t`.
abbrev pub best_floor : ℤ
best_floor = pos 1200

abbrev pub match_margin : ℤ
match_margin = pos 250

abbrev pub int_min : ℤ
int_min = negsuc 2147483647

pub record Top : Type 0 where
  pub best_idx : Option ℕ
  pub best_score : ℤ
  pub second_score : ℤ

abbrev pub no_top : Top
no_top = record { best_idx = none; best_score = int_min; second_score = int_min }

-- One round of the loop.
unfoldable pub see : ℕ → ℤ → Top → Top
see i score t =
    if not (has_value t.best_idx) || ltb_ℤ t.best_score score
    then record { best_idx = some i; best_score = score; second_score = t.best_score }
    else if ltb_ℤ t.second_score score
    then record t { second_score = score }
    else t

unfoldable pub see_all : ℕ → List ℤ → Top → Top
see_all i [] t = t
see_all i (score ∷ scores) t = see_all (suc i) scores (see i score t)

unfoldable pub decide : Top → Option ℕ
unfolding ◌-ℤ◌
decide t =
    if ltb_ℤ t.best_score best_floor
    then none
    else if not (ltb_ℤ t.second_score (pos 0))
        && ltb_ℤ (t.best_score -ℤ t.second_score) match_margin
    then none
    else t.best_idx

unfoldable pub clear_winner : List ℤ → Option ℕ
clear_winner scores = decide (see_all 0 scores no_top)
