-- ===== src/Common/Text.antt =====
-- Text as the list of its bytes, with its equality test.
use Prim.Native.Nat.{ℕ}
use Prim.Native.Char.{code}
use Prim.Native.String.{String}
use mathlib.Core.Path.{◌≡◌, refl}
use mathlib.Core.Logic.{◌↔◌}
use mathlib.Core.Bool.{Bool, true, false, ◌&&◌}
use mathlib.Core.List.{List, [], ◌∷◌}
use native.Mathlib.Omega.{arith}
use mathlib.Core.Option.{Option, none, some}
use shigoku.Common.Tests.{◌==◌, has_value, if◌then◌else◌}

abbrev pub Bytes : Type 0
Bytes = List ℕ

-- The code points of a literal: its bytes, since every literal here is ASCII.
abbrev pub codes : String → Bytes
codes String.[] = []
codes (String.◌∷◌ c s) = code c ∷ codes s

unfoldable pub bytes_eq : Bytes → Bytes → Bool
bytes_eq [] [] = true
bytes_eq [] (d ∷ t) = false
bytes_eq (c ∷ s) [] = false
bytes_eq (c ∷ s) (d ∷ t) = (c == d) && bytes_eq s t

pub bytes_eq_sound : (s t : Bytes) → bytes_eq s t ≡ true → s ≡ t
unfolding bytes_eq
bytes_eq_sound [] [] h = refl
bytes_eq_sound [] (d ∷ t) h = ground arith
bytes_eq_sound (c ∷ s) [] h = ground arith
bytes_eq_sound (c ∷ s) (d ∷ t) h = ground (arith, bytes_eq_sound s t)

pub bytes_eq_refl : (s : Bytes) → bytes_eq s s ≡ true
unfolding bytes_eq
bytes_eq_refl [] = refl
bytes_eq_refl (c ∷ s) = ground (arith, bytes_eq_refl s)

pub bytes_eq_complete : (s t : Bytes) → s ≡ t → bytes_eq s t ≡ true
bytes_eq_complete s t e = rw e (bytes_eq_refl t)

pub bytes_eq_iff : (s t : Bytes) → (bytes_eq s t ≡ true) ↔ (s ≡ t)
bytes_eq_iff s t = (bytes_eq_sound s t, bytes_eq_complete s t)

-- The rest after a prefix, and the text before and after the first occurrence of another.
unfoldable pub strip_prefix : Bytes → Bytes → Option Bytes
strip_prefix [] s = some s
strip_prefix (c ∷ p) [] = none
strip_prefix (c ∷ p) (d ∷ s) = let rest = strip_prefix p s in if c == d then rest else none

abbrev pub starts_with : Bytes → Bytes → Bool
starts_with p s = has_value (strip_prefix p s)

abbrev pub put_front : ℕ → Option (Bytes × Bytes) → Option (Bytes × Bytes)
put_front c none = none
put_front c (some (front, back)) = some (c ∷ front, back)

abbrev pub or_split : Option Bytes → Option (Bytes × Bytes) → Option (Bytes × Bytes)
or_split (some rest) later = some ([], rest)
or_split none later = later

unfoldable pub split_text : Bytes → Bytes → Option (Bytes × Bytes)
split_text needle [] = or_split (strip_prefix needle []) none
split_text needle (c ∷ s) =
    or_split (strip_prefix needle (c ∷ s)) (put_front c (split_text needle s))

abbrev pub contains_text : Bytes → Bytes → Bool
contains_text needle s = has_value (split_text needle s)
