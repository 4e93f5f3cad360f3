-- ===== src/View/Pager/Zoom.antt =====
-- The ladder of zoom steps.
use shigoku.Common.{◌≡◌, some, ℕ, get_elem?, min, suc, ◌-◌, if◌then◌else◌, ◌==◌, zero, refl}
use shigoku.Common.Int.{ℤ, pos}
use shigoku.View.Pager.{zoom_next, zoom_prev, zoom_steps, first_above, last_below}

some_injective : {a b : ℤ} → some a ≡ some b → a ≡ b
some_injective h = cc

-- From a step of the ladder both keys lead to a step. In and then out lands where it started, except
-- from the top, where the first key does nothing; and so out and then in, except from the bottom.
pub zoom_round_trip :
    (i : ℕ) (z : ℤ)
    → get_elem? zoom_steps i ≡ some z
    → (get_elem? zoom_steps (min (suc i) 6) ≡ some (zoom_next z))
      × (get_elem? zoom_steps (i - 1) ≡ some (zoom_prev z))
      × (zoom_prev (zoom_next z) ≡ (if i == 6 then pos 200 else z))
      × (zoom_next (zoom_prev z) ≡ (if i == 0 then pos 75 else z))
unfolding zoom_next zoom_prev first_above last_below
zoom_round_trip zero z h = rw (← some_injective h) (refl, refl, refl, refl)
zoom_round_trip (suc zero) z h = rw (← some_injective h) (refl, refl, refl, refl)
zoom_round_trip (suc (suc zero)) z h = rw (← some_injective h) (refl, refl, refl, refl)
zoom_round_trip (suc (suc (suc zero))) z h = rw (← some_injective h) (refl, refl, refl, refl)
zoom_round_trip (suc (suc (suc (suc zero)))) z h = rw (← some_injective h) (refl, refl, refl, refl)
zoom_round_trip (suc (suc (suc (suc (suc zero))))) z h =
    rw (← some_injective h) (refl, refl, refl, refl)
zoom_round_trip (suc (suc (suc (suc (suc (suc zero)))))) z h =
    rw (← some_injective h) (refl, refl, refl, refl)
zoom_round_trip (suc (suc (suc (suc (suc (suc (suc i))))))) z h = absurd (cc)
