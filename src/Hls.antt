-- ===== src/Hls.antt =====
-- src/hls.cpp: the master playlist of a stream, and the choice of a variant. A `StreamLink` is that of
-- src/domain.hpp.
pub mod Best
pub mod Cap
pub mod Tests
use shigoku.Common.{
  Bytes, ℕ, Option, List, Bool, some, none, split_text, ◌==◌, ◌∷◌, false, ◌&&◌, starts_with,
  if◌then◌else◌, true, ◌*◌, [], codes, ◌||◌, leb, ltb, ◌+◌, ◌-◌, ◌^◌, ◌/◌,
}
use shigoku.Common.Int.{ℤ, pos, negsuc, ltb_ℤ, sub_ℕ}
use shigoku.Domain.Types.{Quality, worst}
use shigoku.Domain.Enums.{quality_cap}
use shigoku.Match.Titles.{take_digits, is_empty}

pub record PlaylistCipher : Type 0 where
  pub key : Bytes
  pub magic : Bytes

pub record StreamLink : Type 0 where
  pub url : Bytes
  pub resolution : Option ℕ
  pub referer : Option Bytes
  pub user_agent : Option Bytes
  pub cloaked_segments : Bool
  pub decloak_segments : Bool
  pub sub_url : Option Bytes
  pub playlist_cipher : Option PlaylistCipher

pub record Variant : Type 0 where
  pub url : Bytes
  pub resolution : Option ℕ

-- A digit after the value so far; none where the value may pass the end of `uint32_t`.
unfoldable pub read_height : ℕ → Bytes → Option ℕ
read_height v [] = some v
read_height v (c ∷ s) =
    let rest = read_height (v * 10 + (c - 0x30)) s in
    if ltb ((2 ^ 32 - 1 - 9) / 10) v then none else rest

abbrev pub height_digits : Bytes → Option ℕ
height_digits [] = none
height_digits (c ∷ s) = read_height 0 (c ∷ s)

abbrev pub after_x : Option (Bytes × Bytes) → Option ℕ
after_x none = none
after_x (some (width, rest)) = height_digits (take_digits rest).0

abbrev pub after_key : Option (Bytes × Bytes) → Option ℕ
after_key none = none
after_key (some (before, rest)) = after_x (split_text (codes "x") rest)

unfoldable pub stream_inf_height : Bytes → Option ℕ
stream_inf_height line = after_key (split_text (codes "RESOLUTION=") line)

abbrev pub is_trimmed : ℕ → Bool
is_trimmed c = c == 0x20 || c == 0x09 || c == 0x0D

unfoldable pub trim_start : Bytes → Bytes
trim_start [] = []
trim_start (c ∷ s) = let rest = trim_start s in if is_trimmed c then rest else c ∷ s

unfoldable pub trim_end : Bytes → Bytes
trim_end [] = []
trim_end (c ∷ s) = let rest = trim_end s in if is_trimmed c && is_empty rest then [] else c ∷ rest

unfoldable pub trim_line : Bytes → Bytes
unfolding trim_start trim_end
trim_line line = trim_end (trim_start line)

abbrev pub on_first : ℕ → List Bytes → List Bytes
on_first c [] = (c ∷ []) ∷ []
on_first c (line ∷ lines) = (c ∷ line) ∷ lines

-- The lines of a text: one more than it has line feeds.
unfoldable pub split_lines : Bytes → List Bytes
split_lines [] = [] ∷ []
split_lines (c ∷ s) = let rest = split_lines s in if c == 0x0A then [] ∷ rest else on_first c rest

abbrev pub is_comment : Bytes → Bool
is_comment [] = false
is_comment (c ∷ s) = c == 0x23

-- The loop over the lines; `pending` is the height of a STREAM-INF that waits for its URI.
unfoldable pub variants_of : Option (Option ℕ) → List Bytes → List Variant
variants_of pending [] = []
variants_of pending (raw ∷ lines) =
    let line = trim_line raw in
    let skipped = variants_of pending lines in
    let announced = variants_of (some (stream_inf_height line)) lines in
    let taken = variants_of none lines in
    if is_empty line
    then skipped
    else if starts_with (codes "#EXT-X-STREAM-INF") line
    then announced
    else if is_comment line
    then skipped
    else elim pending [
      | none ↦ skipped
      | some height ↦ record { url = line; resolution = height } ∷ taken
    ]

unfoldable pub parse_master_playlist : Bytes → List Variant
unfolding variants_of split_lines
parse_master_playlist text = variants_of none (split_lines text)

abbrev pub is_separator : Option ℕ → Bool
is_separator none = false
is_separator (some c) = c == 0x3A || c == 0x2C

-- From the byte after `before`.
unfoldable pub attribute_after : Option ℕ → Bytes → Bytes → Bool
attribute_after before attr [] = is_separator before && starts_with attr []
attribute_after before attr (c ∷ s) =
    is_separator before && starts_with attr (c ∷ s) || attribute_after (some c) attr s

unfoldable pub has_attribute : Bytes → Bytes → Bool
unfolding attribute_after
has_attribute line attr = attribute_after none attr line

unfoldable pub is_audio_line : Bytes → Bool
is_audio_line line =
    starts_with (codes "#EXT-X-MEDIA:") line
    && has_attribute line (codes "TYPE=AUDIO")
    && has_attribute line (codes "URI=")

unfoldable pub any_audio : List Bytes → Bool
any_audio [] = false
any_audio (raw ∷ lines) = is_audio_line (trim_line raw) || any_audio lines

unfoldable pub has_separate_audio : Bytes → Bool
unfolding any_audio split_lines
has_separate_audio text = any_audio (split_lines text)

-- Within the cap the height, beyond it the height below zero.
unfoldable pub quality_rank : ℕ → ℕ → ℤ
quality_rank res cap_px = if leb res cap_px then pos res else sub_ℕ 0 res

abbrev pub is_worst : Quality → Bool
is_worst worst = true
is_worst q = false

abbrev pub outranks : Quality → Option ℕ → ℕ → ℕ → Bool
outranks quality none ra rb = if is_worst quality then ltb ra rb else ltb rb ra
outranks quality (some cap) ra rb = ltb_ℤ (quality_rank rb cap) (quality_rank ra cap)

abbrev pub prefers : Quality → Option ℕ → Option ℕ → Bool
prefers quality none b = false
prefers quality (some ra) none = true
prefers quality (some ra) (some rb) = outranks quality (quality_cap quality) ra rb

unfoldable pub preferred : StreamLink → StreamLink → Quality → Bool
preferred a b quality = prefers quality a.resolution b.resolution

unfoldable pub pick_from : StreamLink → List StreamLink → Quality → StreamLink
pick_from pick [] quality = pick
pick_from pick (v ∷ variants) quality =
    pick_from (if preferred v pick quality then v else pick) variants quality

unfoldable pub select_variant : List StreamLink → Quality → Option StreamLink
unfolding pick_from
select_variant [] quality = none
select_variant (v ∷ variants) quality = some (pick_from v variants quality)
