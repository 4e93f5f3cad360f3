-- ===== src/View/Cli/Argv.antt =====
-- The arguments that the manga application writes for the viewer, and what the viewer reads.
use shigoku.Match.Titles.{take_digits}
use shigoku.Common.Int.{ℤ, pos, ◌<ℤ◌, negsuc, ltb_ℤ, pos_part, neg_part}
use shigoku.Common.{
  bytes_eq, Bool, Bytes, ℕ, List, if◌then◌else◌, Option, codes, ◌++◌, ◌∷◌, All, ◌<◌, ◌≡◌, false, [],
  length, ◌^◌, suc, true, some, arith, none, refl, drop, ◌∙◌, ◌==◌, ap, Bool-cases, inr, inl, sym,
}
use shigoku.Common.Decimal.{
  IsDigit, decimal, to_string, to_string-digits, to_string-pos, decimal-to_string,
}
use shigoku.View.Cli.{
  parse_cli, parse_from, read_arg, read_flag, set_value, strtol, to_int, skip_space, plain, wants,
  Options, ValueFlag, no_options, ok, fit_page, start_page_flag, is_space, report_flag, title_flag,
}

pub data ViewerKind : Type 0 where
  builtin : ViewerKind
  preview_app : ViewerKind
  custom : ViewerKind

unfoldable pub parse_viewer_kind : Bytes → ViewerKind
unfolding bytes_eq
parse_viewer_kind s =
    if bytes_eq s (codes "preview")
    then preview_app
    else if bytes_eq s (codes "custom")
    then custom
    else builtin

pub record ViewerOpts : Type 0 where
  pub rtl : Bool
  pub start_page : ℤ
  pub report_file : Option Bytes
  pub title : Option Bytes

abbrev pub int_to_string : ℤ → Bytes
int_to_string (pos n) = to_string n
int_to_string (negsuc n) = 0x2D ∷ to_string (suc n)

abbrev rtl_args : Bool → List Bytes
rtl_args true = codes "--rtl" ∷ []
rtl_args false = []

abbrev start_args : ℤ → List Bytes
start_args n = if ltb_ℤ (pos 1) n then codes "--start-page" ∷ int_to_string n ∷ [] else []

abbrev value_args : Bytes → Option Bytes → List Bytes
value_args flag none = []
value_args flag (some v) = flag ∷ v ∷ []

abbrev builtin_args : Bytes → ViewerOpts → List Bytes
builtin_args dir opts =
    rtl_args opts.rtl
    ++ (start_args opts.start_page
        ++ (value_args (codes "--report-file") opts.report_file
            ++ (value_args (codes "--title") opts.title ++ (codes "--" ∷ dir ∷ []))))

abbrev degraded : ViewerKind → Bytes → ViewerKind
degraded custom [] = builtin
degraded kind path = kind

abbrev argv_of : ViewerKind → Bytes → Bytes → Bytes → List Bytes → ViewerOpts → List Bytes
argv_of builtin custom_path builtin_bin dir pages opts = builtin_bin ∷ builtin_args dir opts
argv_of preview_app custom_path builtin_bin dir pages opts =
    codes "open" ∷ codes "-W" ∷ codes "-a" ∷ codes "Preview" ∷ pages
argv_of custom custom_path builtin_bin dir pages opts = custom_path ∷ dir ∷ []

unfoldable pub build_viewer_argv :
    ViewerKind → Bytes → Bytes → Bytes → List Bytes → ViewerOpts → List Bytes
build_viewer_argv kind custom_path builtin_bin dir pages opts =
    argv_of (degraded kind custom_path) custom_path builtin_bin dir pages opts

-- The digits of a number, read by `strtol`.
take_digits-same : (s : Bytes) → All IsDigit s → take_digits s ≡ (s, [])
unfolding take_digits
take_digits-same [] h = refl
take_digits-same (c ∷ s) h = ground (arith, take_digits-same s h.1)

strtol-digits :
    (s : Bytes)
    → All IsDigit s
    → 0 < length s
    → decimal 0 s < 2 ^ 63
    → strtol s ≡ (pos (decimal 0 s), [])
unfolding strtol skip_space
strtol-digits [] h k small = absurd (omega arith)
strtol-digits (c ∷ s) h k small =
    let text : (is_space c ≡ false) × ((c == 0x2D) ≡ false) × ((c == 0x2B) ≡ false) =
      (ground arith, ground arith, ground arith) in
    rw text.0 (rw text.1 (rw text.2 (rw (take_digits-same (c ∷ s) h) (ground arith))))

strtol-to_string : (n : ℕ) → n < 2 ^ 31 → strtol (to_string n) ≡ (pos n, [])
strtol-to_string n h =
    let e = decimal-to_string n in
    strtol-digits (to_string n) (to_string-digits n) (to_string-pos n) (omega (arith, e))
    ∙ ap (λ (m : ℕ). (pos m, [])) e

plain-step :
    (opt opt' : Options) (ended ended' : Bool) (a : Bytes) (rest : List Bytes)
    → read_arg opt ended a ≡ plain opt' ended'
    → parse_from opt ended (a ∷ rest) ≡ parse_from opt' ended' rest
unfolding parse_from
plain-step opt opt' ended ended' a [] h = rw (h, parse_from) refl
plain-step opt opt' ended ended' a (v ∷ rest) h = rw (h, parse_from) refl

value-step :
    (opt opt' : Options) (ended : Bool) (a v : Bytes) (flag : ValueFlag) (rest : List Bytes)
    → read_arg opt ended a ≡ wants flag
    → set_value opt flag v ≡ ok opt'
    → parse_from opt ended (a ∷ v ∷ rest) ≡ parse_from opt' ended rest
unfolding parse_from
value-step opt opt' ended a v flag rest h k = rw (h, parse_from) (rw (k, parse_from) refl)

-- The options while the arguments are read.
abbrev pub options : List Bytes → Bool → ℤ → Option Bytes → Option Bytes → Options
options paths rtl start report title = record {
  paths = paths;
  rtl = rtl;
  start_page = start;
  report_file = report;
  fit = fit_page;
  title = title;
  help = false;
}

-- The start page that arrives: the page asked for, and the first page for what is below it.
abbrev pub from_first : ℤ → ℤ
from_first n = if ltb_ℤ (pos 1) n then n else pos 1

rtl-step :
    (rtl : Bool) (rest : List Bytes)
    → parse_from no_options false (rtl_args rtl ++ rest)
      ≡ parse_from (options [] rtl (pos 1) none none) false rest
rtl-step true rest =
    plain-step no_options (options [] true (pos 1) none none) false false (codes "--rtl") rest
      (unfold read_arg read_flag bytes_eq in refl)
rtl-step false rest = refl

set_value-start :
    (opt : Options) (n : ℕ)
    → 1 < n
    → n < 2 ^ 31
    → set_value opt start_page_flag (to_string n) ≡ ok (record opt { start_page = pos n })
unfolding set_value to_int
set_value-start opt n low high = rw (strtol-to_string n high) (ground arith)

start-step :
    (rtl : Bool) (n : ℤ) (rest : List Bytes)
    → n <ℤ pos (2 ^ 31)
    → parse_from (options [] rtl (pos 1) none none) false (start_args n ++ rest)
      ≡ parse_from (options [] rtl (from_first n) none none) false rest
start-step rtl n rest h = elim (Bool-cases (ltb_ℤ (pos 1) n)) [
  | inr low ↦ rw low refl
  | inl high ↦
      let e : n ≡ pos (pos_part n) = ground arith in
      let text : int_to_string n ≡ to_string (pos_part n) = ap int_to_string e in
      rw high (
        value-step (options [] rtl (pos 1) none none) (options [] rtl n none none) false
          (codes "--start-page") (int_to_string n) start_page_flag rest
          (unfold read_arg read_flag bytes_eq in refl)
          (rw text (
              set_value-start (options [] rtl (pos 1) none none) (pos_part n) (ground arith)
                (omega (arith, ap neg_part e)))
            ∙ ap (λ (m : ℤ). ok (options [] rtl m none none)) (sym e)))
]

report-step :
    (rtl : Bool) (n : ℤ) (report : Option Bytes) (rest : List Bytes)
    → parse_from
        (options [] rtl n none none)
        false
        (value_args (codes "--report-file") report ++ rest)
      ≡ parse_from (options [] rtl n report none) false rest
report-step rtl n none rest = refl
report-step rtl n (some v) rest =
    value-step (options [] rtl n none none) (options [] rtl n (some v) none) false
      (codes "--report-file") v report_flag rest (unfold read_arg read_flag bytes_eq in refl)
      (unfold set_value in refl)

title-step :
    (rtl : Bool) (n : ℤ) (report title : Option Bytes) (rest : List Bytes)
    → parse_from (options [] rtl n report none) false (value_args (codes "--title") title ++ rest)
      ≡ parse_from (options [] rtl n report title) false rest
title-step rtl n report none rest = refl
title-step rtl n report (some v) rest =
    value-step (options [] rtl n report none) (options [] rtl n report (some v)) false
      (codes "--title") v title_flag rest (unfold read_arg read_flag bytes_eq in refl)
      (unfold set_value in refl)

dir-step :
    (opt : Options) (dir : Bytes)
    → parse_from opt false (codes "--" ∷ dir ∷ [])
      ≡ ok (record opt { paths = opt.paths ++ dir ∷ [] })
unfolding parse_from read_arg read_flag bytes_eq
dir-step opt dir = refl

parse_cli-ok :
    (args : List Bytes) (opt : Options) (p : Bytes)
    → parse_from no_options false args ≡ ok opt
    → opt.help ≡ false
    → opt.paths ≡ p ∷ []
    → parse_cli args ≡ ok opt
unfolding parse_cli
parse_cli-ok args opt p h no_help path = ground arith

-- What the manga application asks for is what the viewer reads, whatever the directory is called, also
-- if its name looks like a flag: the directory is the only path, the reading direction, the report file
-- and the title arrive as they are, and so does a start page that an `int` can hold, as the first page
-- if it is below that.
pub build_viewer_argv-read :
    (custom_path bin dir : Bytes) (pages : List Bytes) (opts : ViewerOpts)
    → opts.start_page <ℤ pos (2 ^ 31)
    → parse_cli (drop 1 (build_viewer_argv builtin custom_path bin dir pages opts))
      ≡ ok (options (dir ∷ []) opts.rtl (from_first opts.start_page) opts.report_file opts.title)
unfolding build_viewer_argv
build_viewer_argv-read custom_path bin dir pages opts h =
    let n = opts.start_page in
    let read : parse_from no_options false (builtin_args dir opts)
        ≡ ok (options (dir ∷ []) opts.rtl (from_first n) opts.report_file opts.title) =
      rtl-step opts.rtl _
      ∙ start-step opts.rtl n _ h
      ∙ report-step opts.rtl (from_first n) opts.report_file _
      ∙ title-step opts.rtl (from_first n) opts.report_file opts.title _
      ∙ dir-step (options [] opts.rtl (from_first n) opts.report_file opts.title) dir in
    parse_cli-ok (builtin_args dir opts)
      (options (dir ∷ []) opts.rtl (from_first n) opts.report_file opts.title) dir read refl refl
