-- ===== src/Tui/Toast.antt =====
-- src/tui/toast.cpp: the toasts on the screen. A tick count is a 64-bit number: an age wraps.
pub mod Laws
use shigoku.Common.{
  ℕ, zero, suc, ◌+◌, ◌-◌, ◌%◌, ◌^◌, Bool, true, false, not, ◌&&◌, List, [], ◌∷◌, ◌++◌, Option, none,
  some, Bytes, bytes_eq, codes, if◌then◌else◌, leb, ltb, length, keep_if,
}

pub data ToastKind : Type 0 where
  info success error warning : ToastKind

-- `kToastMaxVisible` and `kToastLifetimeTicks`.
abbrev pub max_visible : ℕ
max_visible = 3

abbrev pub lifetime_ticks : ℕ
lifetime_ticks = 25

pub record Toast : Type 0 where
  pub kind : ToastKind
  pub text : Bytes
  pub persistent : Bool
  pub topic : Bytes
  pub born : ℕ

pub toast_bold : ToastKind → Bool
toast_bold ToastKind.success = true
toast_bold ToastKind.error = true
toast_bold ToastKind.info = false
toast_bold ToastKind.warning = false

-- The first transient toast is taken out, if there is one.
unfoldable pub evict_transient : List Toast → Option (List Toast)
evict_transient [] = none
evict_transient (t ∷ items) =
    let rest = evict_transient items in
    if not t.persistent then some items else elim rest [ some kept ↦ some (t ∷ kept) | none ↦ none ]

-- One round of the eviction: the oldest transient toast, or else the oldest one.
abbrev pub or_oldest : List Toast → Option (List Toast) → List Toast
or_oldest items (some kept) = kept
or_oldest [] none = []
or_oldest (t ∷ rest) none = rest

unfoldable pub evict : List Toast → List Toast
evict items = or_oldest items (evict_transient items)

-- `enforce_cap`, with fuel: each round takes one toast out.
unfoldable pub enforce_fuel : ℕ → List Toast → List Toast
enforce_fuel zero items = items
enforce_fuel (suc fuel) items =
    let rest = enforce_fuel fuel (evict items) in
    if ltb max_visible (length items) then rest else items

unfoldable pub enforce_cap : List Toast → List Toast
enforce_cap items = enforce_fuel (length items) items

unfoldable pub push : ToastKind → Bytes → ℕ → List Toast → List Toast
push kind text now items =
    enforce_cap (
      items ++ record { kind = kind; text = text; persistent = false; topic = []; born = now } ∷ [])

abbrev pub is_topic : Bytes → Toast → Bool
is_topic topic t = t.persistent && bytes_eq t.topic topic

-- The first toast of the topic, refreshed in place.
unfoldable pub refresh : ToastKind → Bytes → Bytes → ℕ → List Toast → Option (List Toast)
refresh kind topic text now [] = none
refresh kind topic text now (t ∷ items) =
    let rest = refresh kind topic text now items in
    if is_topic topic t
    then some (record t { kind = kind; text = text; born = now } ∷ items)
    else elim rest [ some kept ↦ some (t ∷ kept) | none ↦ none ]

unfoldable pub push_persistent : ToastKind → Bytes → Bytes → ℕ → List Toast → List Toast
push_persistent kind topic text now items = elim (refresh kind topic text now items) [
  | some kept ↦ kept
  | none ↦ enforce_cap (
      items
      ++ record { kind = kind; text = text; persistent = true; topic = topic; born = now } ∷ [])
]

unfoldable pub clear_topic : Bytes → List Toast → List Toast
clear_topic topic items = keep_if (λ t. not (is_topic topic t)) items

-- `now - t.born`, on 64 bits.
abbrev pub age : ℕ → Toast → ℕ
age now t = (now + (2 ^ 64 - t.born % 2 ^ 64)) % 2 ^ 64

abbrev pub is_expired_toast : ℕ → Toast → Bool
is_expired_toast now t = if t.persistent then false else leb lifetime_ticks (age now t)

unfoldable pub tick : ℕ → List Toast → List Toast
tick now items = keep_if (λ t. not (is_expired_toast now t)) items
