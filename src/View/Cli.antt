-- ===== src/View/Cli.antt =====
-- src/view/pager.cpp and src/manga/viewer.cpp: the command line of the document viewer, as the viewer
-- reads it and as the manga application writes it, and the report that comes back. A `long` is 64 bits
-- wide and an `int` 32.
pub mod Argv
pub mod Report
use shigoku.Common.{
  ℕ, List, Bytes, [], Bool, if◌then◌else◌, bytes_eq, Option, false, ◌==◌, ◌∷◌, ltb, value_or, ◌%◌,
  not, codes, ◌++◌, true, none, ◌||◌, ◌^◌, leb, some, length, ◌&&◌, ◌-◌, take,
}
use shigoku.Common.Int.{ℤ, pos, sub_ℕ, ltb_ℤ, negsuc}
use shigoku.Common.Decimal.{decimal, to_string}
use shigoku.Match.Titles.{take_digits, is_empty}
use shigoku.View.Pager.{Fit, fit_page, fit_width}
use shigoku.Store.Types.{Result, ok, err}

pub record Options : Type 0 where
  pub paths : List Bytes
  pub rtl : Bool
  pub start_page : ℤ
  pub report_file : Option Bytes
  pub fit : Fit
  pub title : Option Bytes
  pub help : Bool

pub data ValueFlag : Type 0 where
  start_page_flag : ValueFlag
  report_flag : ValueFlag
  fit_flag : ValueFlag
  title_flag : ValueFlag

pub data CliError : Type 0 where
  missing_value : ValueFlag → CliError
  bad_start_page : Bytes → CliError
  bad_fit : Bytes → CliError
  unknown_flag : Bytes → CliError
  no_input : CliError

-- The default options.
abbrev pub no_options : Options
no_options = record {
  paths = [];
  rtl = false;
  start_page = pos 1;
  report_file = none;
  fit = fit_page;
  title = none;
  help = false;
}

-- The spaces of the C locale.
abbrev pub is_space : ℕ → Bool
is_space c = c == 0x20 || (leb 0x09 c && leb c 0x0D)

unfoldable pub skip_space : Bytes → Bytes
skip_space [] = []
skip_space (c ∷ s) = let rest = skip_space s in if is_space c then rest else c ∷ s

abbrev saturate : ℕ → ℕ → ℕ
saturate top n = if ltb top n then top else n

-- The value of the digits, bounded by LONG_MIN and LONG_MAX, and the text after them.
abbrev signed : Bool → Bytes × Bytes → Option (ℤ × Bytes)
signed negative ([], rest) = none
signed negative (c ∷ s, rest) =
    if negative
    then some (sub_ℕ 0 (saturate (2 ^ 63) (decimal 0 (c ∷ s))), rest)
    else some (pos (saturate (2 ^ 63 - 1) (decimal 0 (c ∷ s))), rest)

abbrev after_space : Bytes → Option (ℤ × Bytes)
after_space [] = none
after_space (c ∷ s) =
    if c == 0x2D
    then signed true (take_digits s)
    else if c == 0x2B
    then signed false (take_digits s)
    else signed false (take_digits (c ∷ s))

-- `strtol` in base 10: the number and what is left; without a number, 0 and the whole text.
unfoldable pub strtol : Bytes → ℤ × Bytes
unfolding take_digits decimal skip_space
strtol s = value_or (after_space (skip_space s)) (pos 0, s)

-- `static_cast<int>`.
unfoldable pub to_int : ℤ → ℤ
to_int (pos n) = let low = n % 2 ^ 32 in if ltb low (2 ^ 31) then pos low else sub_ℕ low (2 ^ 32)
to_int (negsuc n) =
    let low = n % 2 ^ 32 in if ltb low (2 ^ 31) then negsuc low else sub_ℕ (2 ^ 32 - 1) low

unfoldable pub set_value : Options → ValueFlag → Bytes → Result CliError Options
unfolding strtol to_int bytes_eq
set_value opt start_page_flag v =
    let (n, rest) = strtol v in
    if not (is_empty rest) || ltb_ℤ n (pos 1)
    then err (bad_start_page v)
    else ok (record opt { start_page = to_int n })
set_value opt report_flag v = ok (record opt { report_file = some v })
set_value opt fit_flag v =
    if bytes_eq v (codes "page")
    then ok (record opt { fit = fit_page })
    else if bytes_eq v (codes "width")
    then ok (record opt { fit = fit_width })
    else err (bad_fit v)
set_value opt title_flag v = ok (record opt { title = some v })

-- What an argument does: new options and whether the flags have ended, a flag that wants a value, or
-- an error.
pub data Arg : Type 0 where
  plain : Options → Bool → Arg
  wants : ValueFlag → Arg
  fails : CliError → Arg

unfoldable pub read_flag : Options → Bytes → Arg
unfolding bytes_eq
read_flag opt a =
    if bytes_eq a (codes "--")
    then plain opt true
    else if bytes_eq a (codes "--help") || bytes_eq a (codes "-h")
    then plain (record opt { help = true }) false
    else if bytes_eq a (codes "--rtl")
    then plain (record opt { rtl = true }) false
    else if bytes_eq a (codes "--start-page")
    then wants start_page_flag
    else if bytes_eq a (codes "--report-file")
    then wants report_flag
    else if bytes_eq a (codes "--fit")
    then wants fit_flag
    else if bytes_eq a (codes "--title")
    then wants title_flag
    else if ltb 2 (length a) && bytes_eq (take 2 a) (codes "--")
    then fails (unknown_flag a)
    else plain (record opt { paths = opt.paths ++ a ∷ [] }) false

unfoldable pub read_arg : Options → Bool → Bytes → Arg
unfolding read_flag
read_arg opt false a = read_flag opt a
read_arg opt true a = plain (record opt { paths = opt.paths ++ a ∷ [] }) true

unfoldable pub parse_from : Options → Bool → List Bytes → Result CliError Options
unfolding read_arg set_value
parse_from opt ended [] = ok opt
parse_from opt ended (a ∷ []) = elim (read_arg opt ended a) [
  | plain opt' ended' ↦ ok opt'
  | wants flag ↦ err (missing_value flag)
  | fails e ↦ err e
]
parse_from opt ended (a ∷ v ∷ rest) = elim (read_arg opt ended a) [
  | plain opt' ended' ↦ parse_from opt' ended' (v ∷ rest)
  | wants flag ↦ elim (set_value opt flag v) [
    | err e ↦ err e
    | ok opt' ↦ parse_from opt' ended rest
  ]
  | fails e ↦ err e
]

abbrev no_paths : List Bytes → Bool
no_paths [] = true
no_paths (p ∷ paths) = false

abbrev checked : Options → Result CliError Options
checked opt = if opt.help then ok opt else if no_paths opt.paths then err no_input else ok opt

-- The arguments after the program's name.
unfoldable pub parse_cli : List Bytes → Result CliError Options
unfolding parse_from
parse_cli args = elim (parse_from no_options false args) [ err e ↦ err e | ok opt ↦ checked opt ]
