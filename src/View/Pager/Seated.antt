-- ===== src/View/Pager/Seated.antt =====
-- The paging state stays inside the list of pages and the page on the screen.
use shigoku.Common.{if◌then◌else◌, arith, ◌≡◌, true, Bool-cases, Bool, inl, false, inr, refl}
use shigoku.Common.Int.{ℤ, pos, ◌≤ℤ◌, ◌<ℤ◌, eq_ℤ, ◌-ℤ◌, ◌+ℤ◌, ltb_ℤ}
use shigoku.View.Pager.{
  space, page_down, key_j, backspace, page_up, key_k, arrow_right, arrow_left, arrow_up, arrow_down,
  home, end_key, key_f, fullscreen_key, zoom_in, zoom_out, zoom_reset, key_p, key_q, escape, other,
  advance_state, ViewState, Viewport, clampi, recentre, ◌*ℤ◌, go_to, pan, scroll, rezoom, max_pan,
  ◌/ℤ◌, or_zero, max_scroll, last_page, turn_next, Key, remap_after_relayout, turn_back, zoom_next,
  zoom_prev, zoom_fit,
}

pub record IsSeated (s : ViewState) : Type 0 where
  pub some_page : pos 1 ≤ℤ s.page_count
  pub from_first : pos 0 ≤ℤ s.page
  pub to_last : s.page <ℤ s.page_count
  pub zoomed : pos 0 <ℤ s.zoom

-- The offsets lie within what the content has beyond the window.
pub record IsWithin (vp : Viewport) (s : ViewState) : Type 0 where
  pub left : pos 0 ≤ℤ s.scroll_x
  pub top : pos 0 ≤ℤ s.scroll_y
  pub right : s.scroll_x ≤ℤ max_pan vp
  pub bottom : s.scroll_y ≤ℤ max_scroll vp

-- The sizes of the content after a change of zoom.
abbrev rescaled : ℤ → ℤ → Viewport → Viewport
rescaled z0 z1 vp = record vp {
  content_w = vp.content_w *ℤ z1 /ℤ z0;
  content_h = vp.content_h *ℤ z1 /ℤ z0;
}

abbrev pub viewport_after : Viewport → ViewState → ViewState → Viewport
viewport_after vp s t = if eq_ℤ t.zoom s.zoom then vp else rescaled s.zoom t.zoom vp

clampi_bounds : (v lo hi : ℤ) → lo ≤ℤ hi → (lo ≤ℤ clampi v lo hi) × (clampi v lo hi ≤ℤ hi)
unfolding clampi
clampi_bounds v lo hi h = ground arith

minus_one_bounds : (c : ℤ) → pos 1 ≤ℤ c → (pos 0 ≤ℤ c -ℤ pos 1) × (c -ℤ pos 1 <ℤ c)
unfolding ◌-ℤ◌
minus_one_bounds c h = ground arith

at_least_one : (c : ℤ) → pos 1 ≤ℤ (if ltb_ℤ (pos 1) c then c else pos 1)
at_least_one c = ground arith

last_page_bounds :
    (s : ViewState) → IsSeated s → (pos 0 ≤ℤ last_page s) × (last_page s <ℤ s.page_count)
unfolding ◌-ℤ◌
last_page_bounds s h = ground arith

target_bounds :
    (s : ViewState) (p : ℤ)
    → IsSeated s
    → (pos 0 ≤ℤ clampi p (pos 0) (last_page s)) × (clampi p (pos 0) (last_page s) <ℤ s.page_count)
target_bounds s p h =
    let (from, below) = last_page_bounds s h in
    let (low, high) = clampi_bounds p (pos 0) (last_page s) from in (low, omega arith)

max-nonnegative : (v : ℤ) → pos 0 ≤ℤ or_zero v
max-nonnegative v = ground arith

recentre_bounds :
    (offset content window z0 z1 : ℤ)
    → (pos 0 ≤ℤ recentre offset content window z0 z1)
      × (recentre offset content window z0 z1 ≤ℤ or_zero (content *ℤ z1 /ℤ z0 -ℤ window))
unfolding recentre
recentre_bounds offset content window z0 z1 = ground arith

eq_ℤ_refl : (a : ℤ) → eq_ℤ a a ≡ true
eq_ℤ_refl a = ground arith

abbrev Stays : Viewport → ViewState → ViewState → Type 0
Stays vp s t = IsSeated t × IsWithin (viewport_after vp s t) t

module _ (vp : Viewport) (s : ViewState) (h : IsSeated s) (w : IsWithin vp s) where
  go_to-Stays : (p : ℤ) → Stays vp s (go_to s p)
  unfolding go_to
  go_to-Stays p = elim (Bool-cases (eq_ℤ (clampi p (pos 0) (last_page s)) s.page)) [
    | inl same ↦ rw same (rw (eq_ℤ_refl s.zoom) (h, w))
    | inr turned ↦ rw turned (
        rw (eq_ℤ_refl s.zoom) (
          record {
            some_page = h.some_page;
            from_first = (target_bounds s p h).0;
            to_last = (target_bounds s p h).1;
            zoomed = h.zoomed;
          },
          record {
            left = omega arith;
            top = omega arith;
            right = max-nonnegative (vp.content_w -ℤ vp.viewport_w);
            bottom = max-nonnegative (vp.content_h -ℤ vp.viewport_h);
          },
        ))
  ]

  pan-Stays : (dx : ℤ) → Stays vp s (pan vp s dx)
  unfolding pan
  pan-Stays dx = ground (arith, clampi_bounds (s.scroll_x +ℤ dx) (pos 0) (max_pan vp))

  scroll-Stays : (dy : ℤ) → Stays vp s (scroll vp s dy)
  unfolding scroll
  scroll-Stays dy = ground (arith, clampi_bounds (s.scroll_y +ℤ dy) (pos 0) (max_scroll vp))

  rezoom-Stays : (nz : ℤ) → Stays vp s (rezoom vp s nz)
  unfolding rezoom
  rezoom-Stays nz = ground (
    arith,
    recentre_bounds s.scroll_x vp.content_w vp.viewport_w s.zoom nz,
    recentre_bounds s.scroll_y vp.content_h vp.viewport_h s.zoom nz,
  )

  -- A state of the screen that changes neither page nor zoom nor offsets.
  same-Stays :
      (t : ViewState)
      → t.page ≡ s.page
      → t.page_count ≡ s.page_count
      → t.zoom ≡ s.zoom
      → t.scroll_x ≡ s.scroll_x
      → t.scroll_y ≡ s.scroll_y
      → Stays vp s t
  same-Stays t a b c d e = ground arith

  -- The offsets go_to back to the corner.
  corner-Stays :
      (t : ViewState)
      → t.page ≡ s.page
      → t.page_count ≡ s.page_count
      → t.zoom ≡ s.zoom
      → t.scroll_x ≡ pos 0
      → t.scroll_y ≡ pos 0
      → Stays vp s t
  corner-Stays t a b c d e = ground (
    arith,
    max-nonnegative (vp.content_w -ℤ vp.viewport_w),
    max-nonnegative (vp.content_h -ℤ vp.viewport_h),
  )

  turn-Stays : Stays vp s (turn_next s) × Stays vp s (turn_back s)
  unfolding turn_next turn_back
  turn-Stays = (go_to-Stays (s.page +ℤ pos 1), go_to-Stays (s.page -ℤ pos 1))

  if-Stays :
      (b : Bool) (t u : ViewState) → Stays vp s t → Stays vp s u → Stays vp s (if b then t else u)
  if-Stays true t u h k = h
  if-Stays false t u h k = k

  -- Whatever key is pressed, the state stays inside the document: the page is one of the pages, the
  -- zoom is positive, and the offsets lie between 0 and what the content, at the size that the new
  -- zoom gives it, has beyond the window.
  pub advance_state-Stays : (k : Key) → Stays vp s (advance_state s k vp)
  unfolding advance_state
  advance_state-Stays space = turn-Stays.0
  advance_state-Stays page_down = turn-Stays.0
  advance_state-Stays key_j = turn-Stays.0
  advance_state-Stays backspace = turn-Stays.1
  advance_state-Stays page_up = turn-Stays.1
  advance_state-Stays key_k = turn-Stays.1
  advance_state-Stays arrow_right =
      if-Stays (ltb_ℤ s.scroll_x (max_pan vp)) (pan vp s (vp.viewport_w /ℤ pos 2))
        (if s.rtl then turn_back s else turn_next s) (pan-Stays (vp.viewport_w /ℤ pos 2))
        (if-Stays s.rtl (turn_back s) (turn_next s) turn-Stays.1 turn-Stays.0)
  advance_state-Stays arrow_left =
      if-Stays (ltb_ℤ (pos 0) s.scroll_x) (pan vp s (pos 0 -ℤ vp.viewport_w /ℤ pos 2))
        (if s.rtl then turn_next s else turn_back s) (pan-Stays (pos 0 -ℤ vp.viewport_w /ℤ pos 2))
        (if-Stays s.rtl (turn_next s) (turn_back s) turn-Stays.0 turn-Stays.1)
  advance_state-Stays arrow_up = scroll-Stays (pos 0 -ℤ vp.viewport_h /ℤ pos 2)
  advance_state-Stays arrow_down = scroll-Stays (vp.viewport_h /ℤ pos 2)
  advance_state-Stays home = go_to-Stays (pos 0)
  advance_state-Stays end_key = go_to-Stays (last_page s)
  advance_state-Stays key_f = corner-Stays (advance_state s key_f vp) refl refl refl refl refl
  advance_state-Stays fullscreen_key =
      same-Stays (advance_state s fullscreen_key vp) refl refl refl refl refl
  advance_state-Stays zoom_in = rezoom-Stays (zoom_next s.zoom)
  advance_state-Stays zoom_out = rezoom-Stays (zoom_prev s.zoom)
  advance_state-Stays zoom_reset = rezoom-Stays zoom_fit
  advance_state-Stays key_p = same-Stays (advance_state s key_p vp) refl refl refl refl refl
  advance_state-Stays key_q = same-Stays (advance_state s key_q vp) refl refl refl refl refl
  advance_state-Stays escape =
      if-Stays s.fullscreen (record s { fullscreen = false }) (record s { quit = true })
        (same-Stays (record s { fullscreen = false }) refl refl refl refl refl)
        (same-Stays (record s { quit = true }) refl refl refl refl refl)
  advance_state-Stays other = rw (eq_ℤ_refl s.zoom) (h, w)

-- A new layout seats any state on its pages, with the offsets in the corner, whatever page count the
-- layout has and whichever page it names.
pub remap_after_relayout-IsSeated :
    (s : ViewState) (new_count new_page : ℤ) (vp : Viewport)
    → pos 0 <ℤ s.zoom
    → IsSeated (remap_after_relayout s new_count new_page)
      × IsWithin vp (remap_after_relayout s new_count new_page)
unfolding remap_after_relayout
remap_after_relayout-IsSeated s new_count new_page vp h =
    let count = if ltb_ℤ (pos 1) new_count then new_count else pos 1 in
    let (from, below) = minus_one_bounds count (at_least_one new_count) in
    let (low, high) =
      clampi_bounds (if ltb_ℤ new_page (pos 0) then s.page else new_page) (pos 0) (count -ℤ pos 1)
        from in
    (
      record {
        some_page = at_least_one new_count;
        from_first = low;
        to_last = omega arith;
        zoomed = h;
      },
      record {
        left = omega arith;
        top = omega arith;
        right = max-nonnegative (vp.content_w -ℤ vp.viewport_w);
        bottom = max-nonnegative (vp.content_h -ℤ vp.viewport_h);
      },
    )
