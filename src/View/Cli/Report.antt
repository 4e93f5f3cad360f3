-- ===== src/View/Cli/Report.antt =====
-- The report of the page that a document was left at, from the viewer to the manga application.
use shigoku.View.Pager.{clampi}
use shigoku.Common.Int.{ℤ, ◌-ℤ◌, ◌+ℤ◌, pos}
use shigoku.Common.{
  Bytes, ℕ, Option, strip_prefix, codes, ◌++◌, some, Bool, ◌≤◌, ◌<◌, ◌∷◌, true, if◌then◌else◌,
  arith, ◌≡◌, [], ◌==◌, not, none, suc, ◌||◌, refl, ltb, ◌∙◌, ap,
}
use shigoku.Common.Decimal.{
  to_string, to_string-digits, to_string-pos, starts_digit, read_capped, read_capped-to_string,
  starts_digit-append,
}
use shigoku.View.Cli.{Options}
use shigoku.View.Cli.Argv.{int_to_string}

abbrev report_prefix : Bytes
report_prefix = codes "LAST_PAGE="

unfoldable pub report_line : ℤ → Bytes
report_line idx = report_prefix ++ (int_to_string (idx +ℤ pos 1) ++ (0x0A ∷ []))

abbrev ends_line : Bytes → Bool
ends_line [] = true
ends_line (c ∷ s) = c == 0x0A

abbrev page_of : Option (ℕ × Bytes) → Option ℕ
page_of none = none
page_of (some (v, rest)) = if not (ends_line rest) || ltb v 1 then none else some v

abbrev after_prefix : Option Bytes → Option ℕ
after_prefix none = none
after_prefix (some rest) = if starts_digit rest then page_of (read_capped 1000000 0 rest) else none

unfoldable pub parse_report_line : Bytes → Option ℕ
unfolding strip_prefix read_capped
parse_report_line content = after_prefix (strip_prefix report_prefix content)

-- The page on which the viewer opens a document of `count` pages.
unfoldable pub open_page : Options → ℤ → ℤ
unfolding clampi
open_page opt count = clampi (opt.start_page -ℤ pos 1) (pos 0) (count -ℤ pos 1)

strip_prefix-append : (p s : Bytes) → strip_prefix p (p ++ s) ≡ some s
unfolding strip_prefix
strip_prefix-append [] s = refl
strip_prefix-append (c ∷ p) s = ground (arith, strip_prefix-append p s)

reported :
    (n : ℕ)
    → 0 < n
    → n ≤ 10000009
    → parse_report_line (report_prefix ++ (to_string n ++ 0x0A ∷ [])) ≡ some n
unfolding parse_report_line
reported n positive small =
    let digits = to_string-digits n in
    let read = read_capped-to_string 1000000 n (0x0A ∷ []) refl (omega arith) in
    ap after_prefix (strip_prefix-append report_prefix (to_string n ++ 0x0A ∷ []))
    ∙ rw (starts_digit-append (to_string n) (0x0A ∷ []) digits (to_string-pos n))
        (rw read (ground arith))

pub open_page-same :
    (opt : Options) (page count : ℕ)
    → page < count
    → opt.start_page ≡ pos (suc page)
    → open_page opt (pos count) ≡ pos page
unfolding open_page clampi ◌-ℤ◌
open_page-same opt page count below start = ground arith

-- The report of a page, up to ten million, is read back, counted from 1.
pub report_line-read :
    (page : ℕ) → page < 10000000 → parse_report_line (report_line (pos page)) ≡ some (suc page)
unfolding report_line
report_line-read page small =
    let e : pos page +ℤ pos 1 ≡ pos (suc page) = unfold ◌+ℤ◌ in ground arith in
    rw e (reported (suc page) (omega arith) (omega arith))
