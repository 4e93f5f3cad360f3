-- ===== src/View/Tests.antt =====
-- The viewer at sample inputs.
use shigoku.Common.Decimal.{to_string, digits_from}
use shigoku.View.{is_image_ext}
use shigoku.Common.{List, ◌≡◌, All, codes, false, arith, true, some, ◌∷◌, Bytes, refl, [], bytes_eq}
use shigoku.Common.Int.{pos, ◌-ℤ◌, ◌+ℤ◌}
use shigoku.View.Names.{
  sanitize_entry_name, extracted_names, dedupe_names, disambiguate, Entry, walk_name, visit_segment,
  join, pop_back, holds_control, to_slashes, extract_from, page_name, count_of,
}
use shigoku.View.Names.Fence.{IsFlat}
use shigoku.View.Names.Extract.{extracted_names-IsFlat}
use shigoku.View.Names.Dedupe.{HasNoMark, dedupe_names-collides}
use shigoku.View.Pager.{
  space, zoom_in, arrow_left, arrow_right, fit_page, ViewState, Viewport, advance_state, zoom_next,
  recentre, ◌/ℤ◌, ◌*ℤ◌,
}
use shigoku.View.Pager.Seated.{IsSeated, IsWithin, advance_state-Stays, viewport_after}
use shigoku.View.Pager.Keys.{mirrored, advance_state-mirrored, presses, presses-page, page_after}

abbrev hostile : List Entry
hostile =
    record { raw = some (codes "sub/../weird/../ch1/002.png"); regular = true }
    ∷ record { raw = some (codes "../../evil.png"); regular = true }
    ∷ record { raw = some (codes "/evil.png"); regular = true }
    ∷ []

extracts :
    extracted_names hostile ≡ codes "ch1_002.png" ∷ codes "evil.png" ∷ codes "evil~2.png" ∷ []
unfolding extracted_names extract_from page_name sanitize_entry_name walk_name visit_segment join
    pop_back holds_control to_slashes count_of disambiguate bytes_eq is_image_ext to_string
    digits_from
extracts = refl

extracted_names-IsFlat_example : All IsFlat (extracted_names hostile)
extracted_names-IsFlat_example = extracted_names-IsFlat hostile

abbrev pages_twice : List Bytes
pages_twice = codes "p.png" ∷ codes "q.png" ∷ codes "p.png" ∷ []

abbrev no_marks : All HasNoMark pages_twice
no_marks = omega arith

dedupe_names-collides_example :
    dedupe_names (disambiguate (codes "p.png") 2 ∷ codes "p.png" ∷ codes "p.png" ∷ [])
    ≡ disambiguate (codes "p.png") 2 ∷ codes "p.png" ∷ disambiguate (codes "p.png") 2 ∷ []
dedupe_names-collides_example = dedupe_names-collides (codes "p.png")

abbrev third_page : ViewState
third_page = record {
  page = pos 2;
  page_count = pos 5;
  fit = fit_page;
  rtl = false;
  fullscreen = false;
  hud = true;
  quit = false;
  zoom = pos 100;
  scroll_x = pos 0;
  scroll_y = pos 300;
}

abbrev window : Viewport
window = record {
  content_h = pos 1000;
  viewport_h = pos 600;
  content_w = pos 800;
  viewport_w = pos 800;
}

abbrev seated : IsSeated third_page
seated = omega arith

abbrev within : IsWithin window third_page
within = record {
  left = omega arith;
  top = omega arith;
  right = unfold ◌-ℤ◌ in omega arith;
  bottom = unfold ◌-ℤ◌ in omega arith;
}

advance_state-Stays_example :
    IsSeated (advance_state third_page zoom_in window)
    × IsWithin
        (viewport_after window third_page (advance_state third_page zoom_in window))
        (advance_state third_page zoom_in window)
advance_state-Stays_example = advance_state-Stays window third_page seated within zoom_in

zooms : (advance_state third_page zoom_in window).scroll_y ≡ pos 450
unfolding advance_state zoom_next recentre ◌-ℤ◌ ◌/ℤ◌ ◌*ℤ◌ ◌+ℤ◌
zooms = refl

advance_state-mirrored_example :
    advance_state (mirrored third_page) arrow_left window
    ≡ mirrored (advance_state third_page arrow_right window)
advance_state-mirrored_example =
    advance_state-mirrored window third_page arrow_left refl (unfold ◌-ℤ◌ in refl)

presses-page_example : (presses space window 7 third_page).page ≡ pos (page_after 9 5)
presses-page_example = presses-page window third_page 7 2 5 refl refl (omega arith)
