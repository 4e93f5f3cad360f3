-- ===== src/View/Pager/Keys.antt =====
-- The keys: turning pages, and what a right-to-left document mirrors.
use shigoku.Common.Int.{ℤ, ◌+ℤ◌, ◌-ℤ◌, ltb_ℤ}
use shigoku.Common.{
  not, ◌≡◌, ℕ, suc, arith, zero, ◌<◌, ◌+◌, ◌-◌, if◌then◌else◌, ◌∙◌, ltb, ap, Bool, sym, true, false,
  refl,
}
use shigoku.View.Pager.{
  space, page_down, key_j, backspace, page_up, key_k, arrow_right, arrow_left, arrow_up, arrow_down,
  home, end_key, key_f, fullscreen_key, zoom_in, zoom_out, zoom_reset, key_p, key_q, escape, other,
  advance_state, ViewState, Key, Viewport, go_to, rezoom, pos, max_pan, turn_next, turn_back,
  clampi, scroll, last_page, zoom_next, zoom_prev, zoom_fit,
}

-- The state of the same document read the other way.
abbrev pub mirrored : ViewState → ViewState
mirrored s = record s { rtl = not s.rtl }

abbrev pub mirror_key : Key → Key
mirror_key arrow_right = arrow_left
mirror_key arrow_left = arrow_right
mirror_key k = k

module _ (vp : Viewport) where
  go_to-mirrored : (s : ViewState) (p : ℤ) → go_to (mirrored s) p ≡ mirrored (go_to s p)
  unfolding go_to
  go_to-mirrored s p = ground arith

  rezoom-mirrored : (s : ViewState) (nz : ℤ) → rezoom vp (mirrored s) nz ≡ mirrored (rezoom vp s nz)
  unfolding rezoom
  rezoom-mirrored s nz = ground arith

  turn-mirrored :
      (s : ViewState)
      → (turn_next (mirrored s) ≡ mirrored (turn_next s))
        × (turn_back (mirrored s) ≡ mirrored (turn_back s))
  unfolding turn_next turn_back
  turn-mirrored s = (go_to-mirrored s (s.page +ℤ pos 1), go_to-mirrored s (s.page -ℤ pos 1))

  if_mirrored :
      (right : Bool) (a b c d : ViewState)
      → b ≡ mirrored c
      → a ≡ mirrored d
      → (if not right then a else b) ≡ mirrored (if right then c else d)
  if_mirrored true a b c d h k = h
  if_mirrored false a b c d h k = k

  -- What an arrow does where there is nothing left to pan.
  arrow_right-edge :
      (s : ViewState)
      → s.scroll_x ≡ pos 0
      → max_pan vp ≡ pos 0
      → advance_state s arrow_right vp ≡ (if s.rtl then turn_back s else turn_next s)
  unfolding advance_state
  arrow_right-edge s h m =
      let still : ltb_ℤ s.scroll_x (max_pan vp) ≡ false = rw (h, m) refl in rw still refl

  arrow_left-edge :
      (s : ViewState)
      → s.scroll_x ≡ pos 0
      → advance_state s arrow_left vp ≡ (if s.rtl then turn_next s else turn_back s)
  unfolding advance_state
  arrow_left-edge s h = let still : ltb_ℤ (pos 0) s.scroll_x ≡ false = ground arith in rw still refl

  edge-mirrored :
      (s : ViewState)
      → (if not s.rtl then turn_back (mirrored s) else turn_next (mirrored s))
        ≡ mirrored (if s.rtl then turn_next s else turn_back s)
  edge-mirrored s =
      if_mirrored s.rtl (turn_back (mirrored s)) (turn_next (mirrored s)) (turn_next s)
        (turn_back s) (turn-mirrored s).0 (turn-mirrored s).1

  edge-mirrored' :
      (s : ViewState)
      → (if not s.rtl then turn_next (mirrored s) else turn_back (mirrored s))
        ≡ mirrored (if s.rtl then turn_back s else turn_next s)
  edge-mirrored' s =
      if_mirrored s.rtl (turn_next (mirrored s)) (turn_back (mirrored s)) (turn_back s)
        (turn_next s) (turn-mirrored s).1 (turn-mirrored s).0

-- With nothing left to pan on either side, reading in the other direction swaps the two arrows and
-- changes no other key.
pub advance_state-mirrored :
    (vp : Viewport) (s : ViewState) (key : Key)
    → s.scroll_x ≡ pos 0
    → max_pan vp ≡ pos 0
    → advance_state (mirrored s) key vp ≡ mirrored (advance_state s (mirror_key key) vp)
unfolding advance_state
advance_state-mirrored vp s space h m = (turn-mirrored vp s).0
advance_state-mirrored vp s page_down h m = (turn-mirrored vp s).0
advance_state-mirrored vp s key_j h m = (turn-mirrored vp s).0
advance_state-mirrored vp s backspace h m = (turn-mirrored vp s).1
advance_state-mirrored vp s page_up h m = (turn-mirrored vp s).1
advance_state-mirrored vp s key_k h m = (turn-mirrored vp s).1
advance_state-mirrored vp s arrow_right h m =
    arrow_right-edge vp (mirrored s) h m
    ∙ edge-mirrored vp s
    ∙ ap mirrored (sym (arrow_left-edge vp s h))
advance_state-mirrored vp s arrow_left h m =
    arrow_left-edge vp (mirrored s) h
    ∙ edge-mirrored' vp s
    ∙ ap mirrored (sym (arrow_right-edge vp s h m))
advance_state-mirrored vp s arrow_up h m = unfold scroll in refl
advance_state-mirrored vp s arrow_down h m = unfold scroll in refl
advance_state-mirrored vp s home h m = go_to-mirrored vp s (pos 0)
advance_state-mirrored vp s end_key h m = go_to-mirrored vp s (last_page s)
advance_state-mirrored vp s key_f h m = refl
advance_state-mirrored vp s fullscreen_key h m = refl
advance_state-mirrored vp s zoom_in h m = rezoom-mirrored vp s (zoom_next s.zoom)
advance_state-mirrored vp s zoom_out h m = rezoom-mirrored vp s (zoom_prev s.zoom)
advance_state-mirrored vp s zoom_reset h m = rezoom-mirrored vp s zoom_fit
advance_state-mirrored vp s key_p h m = refl
advance_state-mirrored vp s key_q h m = refl
advance_state-mirrored vp s escape h m = ground arith
advance_state-mirrored vp s other h m = refl

-- `n` presses of a key.
unfoldable pub presses : Key → Viewport → ℕ → ViewState → ViewState
presses k vp zero s = s
presses k vp (suc n) s = presses k vp n (advance_state s k vp)

abbrev pub page_after : ℕ → ℕ → ℕ
page_after page count = if ltb page count then page else count - 1

turn_next-page :
    (s : ViewState) (page count : ℕ)
    → s.page ≡ pos page
    → s.page_count ≡ pos count
    → page < count
    → ((turn_next s).page ≡ pos (page_after (suc page) count))
      × ((turn_next s).page_count ≡ pos count)
unfolding turn_next go_to clampi ◌+ℤ◌ ◌-ℤ◌
turn_next-page s page count h k lt = ground arith

-- From any page, turning on `n` times reaches the page that is `n` further, or the last one if there
-- are not so many: the end of the document is reached, and never passed.
pub presses-page :
    (vp : Viewport) (s : ViewState) (n page count : ℕ)
    → s.page ≡ pos page
    → s.page_count ≡ pos count
    → page < count
    → (presses space vp n s).page ≡ pos (page_after (page + n) count)
unfolding presses advance_state
presses-page vp s zero page count h k lt = ground arith
presses-page vp s (suc n) page count h k lt =
    let (at, same) = turn_next-page s page count h k lt in
    presses-page vp (turn_next s) n (page_after (suc page) count) count at same (ground arith)
    ∙ ap pos (ground arith)
