-- ===== src/View/Pager.antt =====
-- src/view/pager.cpp: the paging state of the document viewer and its table of keys. An `int` is an
-- integer: pages and pixels stay far from the ends of its range.
pub mod Seated
pub mod Keys
pub mod Zoom
use shigoku.Common.{
  ℕ, Bool, if◌then◌else◌, List, ◌*◌, ◌+◌, ◌∷◌, [], ◌||◌, not, ◌/◌, true, ◌==◌, false,
}
use shigoku.Common.Int.{ℤ, sub_ℕ, pos_part, pos, ◌-ℤ◌, ◌+ℤ◌, ltb_ℤ, eq_ℤ, neg_part}

pub data Fit : Type 0 where
  fit_page fit_width : Fit

pub data Key : Type 0 where
  space page_down key_j backspace page_up key_k arrow_right arrow_left arrow_up arrow_down : Key
  home end_key key_f fullscreen_key zoom_in zoom_out zoom_reset key_p key_q escape other : Key

pub record ViewState : Type 0 where
  pub page : ℤ
  pub page_count : ℤ
  pub fit : Fit
  pub rtl : Bool
  pub fullscreen : Bool
  pub hud : Bool
  pub quit : Bool
  pub zoom : ℤ
  pub scroll_x : ℤ
  pub scroll_y : ℤ

pub record Viewport : Type 0 where
  pub content_h : ℤ
  pub viewport_h : ℤ
  pub content_w : ℤ
  pub viewport_w : ℤ

-- `*`, and `/`, which rounds toward zero.
infixl 70 ◌*ℤ◌ ◌/ℤ◌
unfoldable pub ◌*ℤ◌ : ℤ → ℤ → ℤ
a *ℤ b =
    sub_ℕ (pos_part a * pos_part b + neg_part a * neg_part b)
      (pos_part a * neg_part b + neg_part a * pos_part b)

unfoldable pub ◌/ℤ◌ : ℤ → ℤ → ℤ
a /ℤ b =
    let size = (pos_part a + neg_part a) / (pos_part b + neg_part b) in
    if ltb_ℤ a (pos 0)
    then (if ltb_ℤ b (pos 0) then pos size else sub_ℕ 0 size)
    else (if ltb_ℤ b (pos 0) then sub_ℕ 0 size else pos size)

unfoldable pub clampi : ℤ → ℤ → ℤ → ℤ
clampi v lo hi = if ltb_ℤ v lo then lo else if ltb_ℤ hi v then hi else v

abbrev pub or_zero : ℤ → ℤ
or_zero v = if ltb_ℤ (pos 0) v then v else pos 0

abbrev pub zoom_fit : ℤ
zoom_fit = pos 100

abbrev pub zoom_steps : List ℤ
zoom_steps = pos 50 ∷ pos 75 ∷ pos 100 ∷ pos 125 ∷ pos 150 ∷ pos 200 ∷ pos 300 ∷ []

unfoldable pub first_above : ℤ → List ℤ → ℤ → ℤ
first_above percent [] d = d
first_above percent (z ∷ steps) d =
    let rest = first_above percent steps d in if ltb_ℤ percent z then z else rest

unfoldable pub last_below : ℤ → List ℤ → ℤ → ℤ
last_below percent [] d = d
last_below percent (z ∷ steps) d = last_below percent steps (if ltb_ℤ z percent then z else d)

unfoldable pub zoom_next : ℤ → ℤ
unfolding first_above
zoom_next percent = first_above percent zoom_steps (pos 300)

unfoldable pub zoom_prev : ℤ → ℤ
unfolding last_below
zoom_prev percent = last_below percent zoom_steps (pos 50)

abbrev pub last_page : ViewState → ℤ
last_page s = or_zero (s.page_count -ℤ pos 1)

abbrev at_page : ViewState → ℤ → ViewState
at_page s np =
    if eq_ℤ np s.page then s else record s { page = np; scroll_y = pos 0; scroll_x = pos 0 }

unfoldable pub go_to : ViewState → ℤ → ViewState
go_to s p = at_page s (clampi p (pos 0) (last_page s))

abbrev pub max_scroll : Viewport → ℤ
max_scroll vp = or_zero (vp.content_h -ℤ vp.viewport_h)

abbrev pub max_pan : Viewport → ℤ
max_pan vp = or_zero (vp.content_w -ℤ vp.viewport_w)

unfoldable pub scroll : Viewport → ViewState → ℤ → ViewState
scroll vp s dy = record s { scroll_y = clampi (s.scroll_y +ℤ dy) (pos 0) (max_scroll vp) }

unfoldable pub pan : Viewport → ViewState → ℤ → ViewState
pan vp s dx = record s { scroll_x = clampi (s.scroll_x +ℤ dx) (pos 0) (max_pan vp) }

-- The new offset on one axis: the centre of the window stays over the same point of the page.
unfoldable pub recentre : ℤ → ℤ → ℤ → ℤ → ℤ → ℤ
recentre offset content window z0 z1 =
    let size = content *ℤ z1 /ℤ z0 in
    let n = (offset +ℤ window /ℤ pos 2) *ℤ z1 /ℤ z0 -ℤ window /ℤ pos 2 in
    let most = or_zero (size -ℤ window) in
    if ltb_ℤ n (pos 0) then pos 0 else if ltb_ℤ most n then most else n

unfoldable pub rezoom : Viewport → ViewState → ℤ → ViewState
rezoom vp s nz =
    if eq_ℤ nz s.zoom || not (ltb_ℤ (pos 0) s.zoom) || not (ltb_ℤ (pos 0) nz) then s else record s {
      scroll_x = recentre s.scroll_x vp.content_w vp.viewport_w s.zoom nz;
      scroll_y = recentre s.scroll_y vp.content_h vp.viewport_h s.zoom nz;
      zoom = nz;
    }

abbrev flip_fit : Fit → Fit
flip_fit fit_page = fit_width
flip_fit fit_width = fit_page

unfoldable pub turn_next : ViewState → ViewState
unfolding go_to
turn_next s = go_to s (s.page +ℤ pos 1)

unfoldable pub turn_back : ViewState → ViewState
unfolding go_to
turn_back s = go_to s (s.page -ℤ pos 1)

unfoldable pub advance_state : ViewState → Key → Viewport → ViewState
unfolding go_to turn_next turn_back scroll pan rezoom
advance_state s space vp = turn_next s
advance_state s page_down vp = turn_next s
advance_state s key_j vp = turn_next s
advance_state s backspace vp = turn_back s
advance_state s page_up vp = turn_back s
advance_state s key_k vp = turn_back s
advance_state s arrow_right vp =
    if ltb_ℤ s.scroll_x (max_pan vp)
    then pan vp s (vp.viewport_w /ℤ pos 2)
    else if s.rtl
    then turn_back s
    else turn_next s
advance_state s arrow_left vp =
    if ltb_ℤ (pos 0) s.scroll_x
    then pan vp s (pos 0 -ℤ vp.viewport_w /ℤ pos 2)
    else if s.rtl
    then turn_next s
    else turn_back s
advance_state s arrow_up vp = scroll vp s (pos 0 -ℤ vp.viewport_h /ℤ pos 2)
advance_state s arrow_down vp = scroll vp s (vp.viewport_h /ℤ pos 2)
advance_state s home vp = go_to s (pos 0)
advance_state s end_key vp = go_to s (last_page s)
advance_state s key_f vp = record s { fit = flip_fit s.fit; scroll_y = pos 0; scroll_x = pos 0 }
advance_state s fullscreen_key vp = record s { fullscreen = not s.fullscreen }
advance_state s zoom_in vp = rezoom vp s (zoom_next s.zoom)
advance_state s zoom_out vp = rezoom vp s (zoom_prev s.zoom)
advance_state s zoom_reset vp = rezoom vp s zoom_fit
advance_state s key_p vp = record s { hud = not s.hud }
advance_state s key_q vp = record s { quit = true }
advance_state s escape vp =
    if s.fullscreen then record s { fullscreen = false } else record s { quit = true }
advance_state s other vp = s

unfoldable pub remap_after_relayout : ViewState → ℤ → ℤ → ViewState
unfolding clampi
remap_after_relayout s new_count new_page =
    let count = if ltb_ℤ (pos 1) new_count then new_count else pos 1 in
    record s {
      page_count = count;
      page = clampi (if ltb_ℤ new_page (pos 0) then s.page else new_page) (pos 0) (count -ℤ pos 1);
      scroll_x = pos 0;
      scroll_y = pos 0;
    }
