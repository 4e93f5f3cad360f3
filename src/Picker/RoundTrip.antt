-- ===== src/Picker/RoundTrip.antt =====
-- The rows that the picker is fed, and the row that is read back from its answer.
use shigoku.Common.{
  Bytes, ℕ, All, ◌∷◌, All-append, ◌++◌, ◌<◌, List, ◌≢◌, arith, ◌≡◌, length, get_elem?, [], ◌+◌,
  some, codes, refl, suc, ◌∙◌, zero, ap,
}
use shigoku.Common.Decimal.{
  to_string, to_string-digits, to_string-pos, read_capped-to_string, IsDigit, starts_digit-append,
}
use shigoku.Picker.{
  fzf_pick, numbered, numbered_from, number_row, one_line, first_line, parse_selection, fed_text,
  skip_blank, Ending, exited, picked, after_exit,
}

abbrev IsLine : Bytes → Type 0
IsLine = All (λ (c : ℕ). c ≢ 0x0A)

digits-IsLine : (s : Bytes) → All IsDigit s → IsLine s
digits-IsLine [] h = tt
digits-IsLine (c ∷ s) h = (omega arith, digits-IsLine s h.1)

one_line-IsLine : (s : Bytes) → IsLine (one_line s)
unfolding one_line
one_line-IsLine [] = tt
one_line-IsLine (c ∷ s) = (ground arith, one_line-IsLine s)

number_row-IsLine : (i : ℕ) (row : Bytes) → IsLine (number_row i row)
unfolding number_row
number_row-IsLine i row =
    All-append (λ (c : ℕ). c ≢ 0x0A) (to_string (i + 1)) (codes ". " ++ one_line row)
      (digits-IsLine (to_string (i + 1)) (to_string-digits (i + 1)))
      (omega arith, (omega arith, one_line-IsLine row))

first_line-line : (line rest : Bytes) → IsLine line → first_line (line ++ (0x0A ∷ rest)) ≡ line
unfolding first_line
first_line-line [] rest h = refl
first_line-line (c ∷ line) rest h = ground (arith, first_line-line line rest h.1)

skip_blank-digits :
    (s rest : Bytes) → All IsDigit s → 0 < length s → skip_blank (s ++ rest) ≡ s ++ rest
unfolding skip_blank
skip_blank-digits [] rest h k = absurd (omega arith)
skip_blank-digits (c ∷ s) rest h k = ground arith

parse_selection-number_row :
    (most i : ℕ) (row : Bytes) → i < most → parse_selection (number_row i row) most ≡ some i
unfolding parse_selection number_row
parse_selection-number_row most i row below =
    let digits = to_string-digits (i + 1) in
    let some_digit = to_string-pos (i + 1) in
    let rest = codes ". " ++ one_line row in
    rw (skip_blank-digits (to_string (i + 1)) rest digits some_digit) (
      rw (starts_digit-append (to_string (i + 1)) rest digits some_digit)
        (rw (read_capped-to_string most (i + 1) rest refl (omega arith)) (ground arith)))

row_at :
    (k n : ℕ) (row line : Bytes)
    → n ≡ k
    → some (number_row k row) ≡ some line
    → line ≡ number_row n row
row_at k n row line e h = rw e (cc)

numbered_from-row :
    (k : ℕ) (rows : List Bytes) (i : ℕ) (line : Bytes)
    → get_elem? (numbered_from k rows) i ≡ some line
    → (row : Bytes) × (line ≡ number_row (k + i) row) × (i < length rows)
unfolding numbered_from
numbered_from-row k [] i line h = absurd (cc)
numbered_from-row k (row ∷ rows) zero line h =
    (row, row_at k (k + 0) row line (omega arith) h, omega arith)
numbered_from-row k (row ∷ rows) (suc i) line h =
    let (found, same, below) = numbered_from-row (suc k) rows i line h in
    (found, same ∙ ap (λ (n : ℕ). number_row n found) (omega arith), omega arith)

after_exit-line :
    (rows : List Bytes) (i : ℕ) (row rest : Bytes)
    → i < length rows
    → after_exit 0 (number_row i row ++ (0x0A ∷ rest)) rows ≡ picked i
after_exit-line rows i row rest below =
    rw (first_line-line (number_row i row) rest (number_row-IsLine i row))
      (rw (parse_selection-number_row (length rows) i row below) refl)

-- Whichever of the numbered lines that it is fed the picker answers with, the row of that line is
-- picked, also if rows have the same text, or hold line breaks and numbers of their own.
pub fzf_pick-row :
    (run : Bytes → Ending × Bytes) (rows : List Bytes) (i : ℕ) (line rest : Bytes)
    → get_elem? (numbered rows) i ≡ some line
    → run (fed_text (numbered rows)) ≡ (exited 0, line ++ (0x0A ∷ rest))
    → fzf_pick run rows ≡ picked i
unfolding fzf_pick numbered
fzf_pick-row run [] i line rest h answer = absurd (unfold numbered_from in cc)
fzf_pick-row run (row ∷ rows) i line rest h answer =
    let (found, same, below) = numbered_from-row 0 (row ∷ rows) i line h in
    let is_row : line ≡ number_row i found =
      same ∙ ap (λ (n : ℕ). number_row n found) (omega arith) in
    rw answer (rw is_row (after_exit-line (row ∷ rows) i found rest below))
