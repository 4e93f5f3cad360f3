-- ===== src/Tui/Toast/Laws.antt =====
-- src/tui/toast.cpp: the cap on the toasts, and the place of the persistent ones.
use shigoku.Common.{
  ℕ, zero, suc, ◌≤◌, ◌<◌, ◌≡◌, refl, true, false, not, List, [], ◌∷◌, ◌++◌, Option, none, some,
  arith, length, length-append, length-keep_if-le, ltb, Bool-cases, Option-cases, inl, inr, keep_if,
  Bytes, ◌∙◌,
}
use shigoku.Tui.Toast.{
  Toast, evict, evict_transient, enforce_fuel, enforce_cap, max_visible, push, push_persistent,
  refresh, clear_topic, tick, or_oldest, ToastKind, is_topic, is_expired_toast,
}

evict_transient-length :
    (items kept : List Toast) → evict_transient items ≡ some kept → suc (length kept) ≡ length items
unfolding evict_transient
evict_transient-length [] kept h = absurd (cc)
evict_transient-length (t ∷ items) kept h = elim (Option-cases (evict_transient items)) [
  | inl e ↦ ground arith
  | inr (rest, e) ↦ ground (arith, evict_transient-length items rest e)
]

evict-length : (items : List Toast) → 0 < length items → suc (length (evict items)) ≡ length items
unfolding evict
evict-length [] h = absurd (omega arith)
evict-length (t ∷ items) h = go (evict_transient (t ∷ items)) refl
  where
    go :
        (o : Option (List Toast))
        → evict_transient (t ∷ items) ≡ o
        → suc (length (or_oldest (t ∷ items) o)) ≡ suc (length items)
    go none e = refl
    go (some kept) e = evict_transient-length (t ∷ items) kept e

enforce_fuel-length :
    (fuel : ℕ) (items : List Toast)
    → length items ≤ fuel
    → length (enforce_fuel fuel items) ≤ max_visible
unfolding enforce_fuel
enforce_fuel-length zero items h = omega arith
enforce_fuel-length (suc fuel) items h = elim (Bool-cases (ltb max_visible (length items))) [
  | inr k ↦ rw k (ground arith)
  | inl k ↦
      let shorter : suc (length (evict items)) ≡ length items = evict-length items (ground arith) in
      rw k (enforce_fuel-length fuel (evict items) (omega arith))
]

enforce_cap-length : (items : List Toast) → length (enforce_cap items) ≤ max_visible
unfolding enforce_cap
enforce_cap-length items = enforce_fuel-length (length items) items (omega arith)

refresh-length :
    (kind : ToastKind) (topic text : Bytes) (now : ℕ) (items kept : List Toast)
    → refresh kind topic text now items ≡ some kept
    → length kept ≡ length items
unfolding refresh
refresh-length kind topic text now [] kept h = absurd (cc)
refresh-length kind topic text now (t ∷ items) kept h =
    elim (Option-cases (refresh kind topic text now items)) [
      | inl e ↦ ground arith
      | inr (rest, e) ↦ ground (arith, refresh-length kind topic text now items rest e)
    ]

-- With at most three toasts on the screen, there are at most three after a push, after a persistent
-- push (new or refreshed), after a topic is cleared and after a tick.
pub toasts-cap :
    (kind : ToastKind) (topic text : Bytes) (now : ℕ) (items : List Toast)
    → length items ≤ max_visible
    → (length (push kind text now items) ≤ max_visible)
      × (length (push_persistent kind topic text now items) ≤ max_visible)
      × (length (clear_topic topic items) ≤ max_visible)
      × (length (tick now items) ≤ max_visible)
unfolding push push_persistent clear_topic tick
toasts-cap kind topic text now items h = (
  enforce_cap-length _,
  persistent (refresh kind topic text now items) refl,
  omega (arith, length-keep_if-le (λ t. not (is_topic topic t)) items),
  omega (arith, length-keep_if-le (λ t. not (is_expired_toast now t)) items),
)
  where
    persistent :
        (o : Option (List Toast))
        → refresh kind topic text now items ≡ o
        → length (elim o [
          | some kept ↦ kept
          | none ↦ enforce_cap (
              items
              ++ record { kind = kind; text = text; persistent = true; topic = topic; born = now }
                ∷ [])
        ])
          ≤ max_visible
    persistent none e = enforce_cap-length _
    persistent (some kept) e = omega (arith, refresh-length kind topic text now items kept e)

-- The persistent toasts of a list, in their order.
abbrev pub persistents : List Toast → List Toast
persistents items = keep_if (λ t. t.persistent) items

evict_transient-persistents :
    (items kept : List Toast)
    → evict_transient items ≡ some kept
    → persistents kept ≡ persistents items
unfolding evict_transient keep_if
evict_transient-persistents [] kept h = absurd (cc)
evict_transient-persistents (t ∷ items) kept h = elim (Option-cases (evict_transient items)) [
  | inl e ↦ ground arith
  | inr (rest, e) ↦ ground (arith, evict_transient-persistents items rest e)
]

evict_transient-transient :
    (items : List Toast) (t : Toast)
    → t.persistent ≡ false
    → (kept : List Toast) × (evict_transient (items ++ t ∷ []) ≡ some kept)
unfolding evict_transient
evict_transient-transient [] t h = ([], ground arith)
evict_transient-transient (u ∷ items) t h =
    let rest = evict_transient-transient items t h in
    elim (Bool-cases u.persistent) [
      | inr k ↦ (items ++ t ∷ [], ground arith)
      | inl k ↦ (u ∷ rest.0, ground (arith, rest.1))
    ]

persistents-append :
    (items : List Toast) (t : Toast)
    → t.persistent ≡ false
    → persistents (items ++ t ∷ []) ≡ persistents items
unfolding keep_if
persistents-append [] t h = ground arith
persistents-append (u ∷ items) t h = ground (arith, persistents-append items t h)

enforce_fuel-small :
    (fuel : ℕ) (items : List Toast) → length items ≤ max_visible → enforce_fuel fuel items ≡ items
unfolding enforce_fuel
enforce_fuel-small zero items h = refl
enforce_fuel-small (suc fuel) items h = ground arith

evict-some : (items kept : List Toast) → evict_transient items ≡ some kept → evict items ≡ kept
unfolding evict
evict-some items kept e = rw e refl

-- One round is enough for one toast too many.
enforce_fuel-persistents :
    (fuel : ℕ) (items kept : List Toast)
    → evict_transient items ≡ some kept
    → length items ≤ suc max_visible
    → persistents (enforce_fuel fuel items) ≡ persistents items
unfolding enforce_fuel
enforce_fuel-persistents zero items kept e h = refl
enforce_fuel-persistents (suc fuel) items kept e h =
    elim (Bool-cases (ltb max_visible (length items))) [
      | inr k ↦ rw k refl
      | inl k ↦
          let one : enforce_fuel fuel kept ≡ kept =
            enforce_fuel-small fuel kept (omega (arith, evict_transient-length items kept e)) in
          rw (k, evict-some items kept e, one) (evict_transient-persistents items kept e)
    ]

-- A transient toast never costs a persistent one its place: pushed onto at most three toasts, it
-- leaves the same persistent toasts, in the same order.
pub push-persistents :
    (kind : ToastKind) (text : Bytes) (now : ℕ) (items : List Toast)
    → length items ≤ max_visible
    → persistents (push kind text now items) ≡ persistents items
unfolding push enforce_cap
push-persistents kind text now items h =
    let new : Toast = record {
      kind = kind;
      text = text;
      persistent = false;
      topic = [];
      born = now;
    } in
    let gone = evict_transient-transient items new refl in
    let grown : length (items ++ new ∷ []) ≤ suc max_visible =
      omega (arith, length-append items (new ∷ [])) in
    enforce_fuel-persistents (length (items ++ new ∷ [])) (items ++ new ∷ []) gone.0 gone.1 grown
    ∙ persistents-append items new refl
