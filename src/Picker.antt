-- ===== src/Picker.antt =====
-- src/picker.cpp: the choice of a row by an external picker. Whether a path can be executed and the
-- value of PATH are arguments; so is how the picker ended, with what it wrote. A number of rows stays
-- far below the end of `size_t`.
pub mod RoundTrip
pub mod Tests
use shigoku.Match.Titles.{is_empty}
use shigoku.View.{find_last}
use shigoku.Common.{
  ℕ, bytes_eq, Bytes, List, Option, Bool, if◌then◌else◌, ◌∷◌, ◌+◌, some, has_value, true, none,
  codes, ◌==◌, ◌++◌, suc, ltb, false, [], ◌&&◌, ◌||◌, not, ◌-◌, length,
}
use shigoku.Common.Decimal.{to_string, read_capped, starts_digit}

pub data Mode : Type 0 where
  auto : Mode
  prompt : Mode
  fzf : Mode

unfoldable pub parse_mode : Bytes → Mode
unfolding bytes_eq
parse_mode s =
    if bytes_eq s (codes "prompt") then prompt else if bytes_eq s (codes "fzf") then fzf else auto

-- A line fed_text or a carriage return becomes a space.
unfoldable pub one_line : Bytes → Bytes
one_line [] = []
one_line (c ∷ s) = (if c == 0x0A || c == 0x0D then 0x20 else c) ∷ one_line s

unfoldable pub number_row : ℕ → Bytes → Bytes
unfolding one_line
number_row i row = to_string (i + 1) ++ (codes ". " ++ one_line row)

unfoldable pub numbered_from : ℕ → List Bytes → List Bytes
unfolding number_row
numbered_from i [] = []
numbered_from i (row ∷ rows) = number_row i row ∷ numbered_from (suc i) rows

unfoldable pub numbered : List Bytes → List Bytes
unfolding numbered_from
numbered rows = numbered_from 0 rows

unfoldable pub skip_blank : Bytes → Bytes
skip_blank [] = []
skip_blank (c ∷ s) = let rest = skip_blank s in if c == 0x20 || c == 0x09 then rest else c ∷ s

abbrev in_range : ℕ → ℕ → Option ℕ
in_range most n = if ltb n 1 || ltb most n then none else some (n - 1)

abbrev after_number : ℕ → Option (ℕ × Bytes) → Option ℕ
after_number most none = none
after_number most (some (n, [])) = none
after_number most (some (n, c ∷ rest)) = if c == 0x2E then in_range most n else none

-- The number in front of the first '.', counted from 0, of at most `most` rows.
unfoldable pub parse_selection : Bytes → ℕ → Option ℕ
unfolding skip_blank read_capped
parse_selection line most =
    let text = skip_blank line in
    if starts_digit text then after_number most (read_capped most 0 text) else none

-- `find(':')` and `substr`, for all directories of PATH.
unfoldable pub directories_from : Bytes → Bytes → List Bytes
directories_from dir [] = dir ∷ []
directories_from dir (c ∷ s) =
    let next = directories_from (if c == 0x3A then [] else dir ++ c ∷ []) s in
    if c == 0x3A then dir ∷ next else next

abbrev contains_byte : ℕ → Bytes → Bool
contains_byte c s = has_value (find_last (λ d. d == c) s)

abbrev is_auto : Mode → Bool
is_auto auto = true
is_auto prompt = false
is_auto fzf = false

-- `why` is empty where the picker is used.
pub record Choice : Type 0 where
  pub binary : Option Bytes
  pub binary_missing : Bool
  pub why : Bytes

-- What the picker reads: each line and a line fed_text.
unfoldable pub fed_text : List Bytes → Bytes
fed_text [] = []
fed_text (line ∷ lines) = line ++ (0x0A ∷ fed_text lines)

module _ (executable : Bytes → Bool) (path : Option Bytes) where
  unfoldable pub search_in : Bytes → List Bytes → Option Bytes
  search_in name [] = none
  search_in name (dir ∷ dirs) =
      let rest = search_in name dirs in
      let candidate = dir ++ (0x2F ∷ name) in
      if is_empty dir then rest else if executable candidate then some candidate else rest

  unfoldable pub search_path : Bytes → Option Bytes
  unfolding search_in directories_from
  search_path name = elim path [ none ↦ none | some p ↦ search_in name (directories_from [] p) ]

  unfoldable pub find_binary : Bytes → Option Bytes
  unfolding search_path
  find_binary override_path =
      if is_empty override_path
      then search_path (codes "fzf")
      else if contains_byte 0x2F override_path
      then (if executable override_path then some override_path else none)
      else search_path override_path

  pub why_missing : Bytes → Bytes
  why_missing picker_path =
      if is_empty picker_path
      then codes "no fzf on PATH"
      else if contains_byte 0x2F picker_path
      then picker_path ++ codes " isn't there or isn't executable"
      else codes "no " ++ (picker_path ++ codes " on PATH")

  -- `choose`, once a binary has been looked for.
  unfoldable pub choose_binary : Mode → Bytes → Bool → Option Bytes → Choice
  choose_binary mode picker_path at_terminal none = record {
    binary = none;
    binary_missing = true;
    why = why_missing picker_path;
  }
  choose_binary mode picker_path at_terminal (some path) =
      if is_auto mode && not at_terminal
      then record {
        binary = none;
        binary_missing = false;
        why = codes "stdin/stdout not a terminal";
      }
      else record { binary = some path; binary_missing = false; why = [] }

  unfoldable pub choose : Mode → Bytes → Bool → Choice
  unfolding find_binary choose_binary
  choose prompt picker_path at_terminal = record {
    binary = none;
    binary_missing = false;
    why = codes "cli_picker = prompt";
  }
  choose auto picker_path at_terminal =
      choose_binary auto picker_path at_terminal (find_binary picker_path)
  choose fzf picker_path at_terminal =
      choose_binary fzf picker_path at_terminal (find_binary picker_path)

-- How the picker ended: it was not started or not waited for, it died of a signal, or it exited.
pub data Ending : Type 0 where
  no_run : Ending
  signalled : ℕ → Ending
  exited : ℕ → Ending

pub data Failure : Type 0 where
  spawn_failed : Failure
  died : ℕ → Failure
  bad_exit : ℕ → Failure
  unreadable : Failure

pub data Pick : Type 0 where
  picked : ℕ → Pick
  declined : Pick
  failed : Failure → Pick

-- The first line.
unfoldable pub first_line : Bytes → Bytes
first_line [] = []
first_line (c ∷ s) = let rest = first_line s in if c == 0x0A then [] else c ∷ rest

abbrev pick_of : Option ℕ → Pick
pick_of none = failed unreadable
pick_of (some i) = picked i

abbrev after_exit : ℕ → Bytes → List Bytes → Pick
after_exit code answer rows =
    if code == 1 || code == 130
    then declined
    else if code == 0
    then pick_of (parse_selection (first_line answer) (length rows))
    else failed (bad_exit code)

abbrev after_run : Ending → Bytes → List Bytes → Pick
after_run no_run answer rows = failed spawn_failed
after_run (signalled n) answer rows = failed (died n)
after_run (exited code) answer rows = after_exit code answer rows

-- `run`: how the picker ends and what it writes, given the text that it is fed.
unfoldable pub fzf_pick : (Bytes → Ending × Bytes) → List Bytes → Pick
fzf_pick run [] = declined
fzf_pick run (row ∷ rows) =
    let (ending, answer) = run (fed_text (numbered (row ∷ rows))) in
    after_run ending answer (row ∷ rows)
