-- ===== src/Common/Decimal.antt =====
-- `std::to_string` of a number that is not negative: its decimal digits.
use shigoku.Common.{refl}
use Prim.Native.Nat.{ℕ, zero, suc, ◌+◌, ◌-◌, ◌*◌, ◌/◌, ◌%◌, ◌≤◌, ◌<◌}
use mathlib.Core.Path.{◌≡◌}
use native.Mathlib.Decide.{dec_lt}
use mathlib.Core.Bool.{true, false}
use mathlib.Core.List.{[], ◌∷◌, ◌++◌}
use native.Mathlib.Omega.{arith}
use mathlib.Core.Path.{ap, ◌∙◌}
use mathlib.Core.Bool.{Bool, ◌&&◌}
use mathlib.Core.Option.{Option, some, none}
use shigoku.Common.Tests.{ltb, leb, if◌then◌else◌}
use shigoku.Common.Text.{Bytes}
use shigoku.Common.Lists.{All, All-append, length, length-snoc}

-- The digits of `n`; more fuel than `n` is enough.
unfoldable pub digits_from : ℕ → ℕ → Bytes
digits_from zero n = []
digits_from (suc fuel) n = elim (ltb n 10) [
  | true ↦ (0x30 + n) ∷ []
  | false ↦ digits_from fuel (n / 10) ++ ((0x30 + n % 10) ∷ [])
]

unfoldable pub to_string : ℕ → Bytes
to_string n = digits_from (suc n) n

digits_from-lt : (f n : ℕ) → n < 10 → digits_from (suc f) n ≡ (0x30 + n) ∷ []
unfolding digits_from
digits_from-lt f n h = ground arith

digits_from-ge :
    (f n : ℕ) → 10 ≤ n → digits_from (suc f) n ≡ digits_from f (n / 10) ++ (0x30 + n % 10) ∷ []
unfolding digits_from
digits_from-ge f n h = ground arith

digits_from-fuel : (f g n : ℕ) → n < f → n < g → digits_from f n ≡ digits_from g n
digits_from-fuel zero g n h k = absurd (omega arith)
digits_from-fuel (suc f) zero n h k = absurd (omega arith)
digits_from-fuel (suc f) (suc g) n h k = elim (dec_lt n 10) [
  | yes small ↦ cc (digits_from-lt f n small, digits_from-lt g n small)
  | no large ↦ rw (
    digits_from-ge f n (omega arith),
    digits_from-ge g n (omega arith),
    digits_from-fuel f g (n / 10) (omega arith) (omega arith),
  )
]

-- One digit, or the digits of a tenth and one more.
pub to_string-small : (n : ℕ) → n < 10 → to_string n ≡ (0x30 + n) ∷ []
unfolding to_string
to_string-small n h = digits_from-lt n n h

pub to_string-step : (n : ℕ) → 10 ≤ n → to_string n ≡ to_string (n / 10) ++ (0x30 + n % 10) ∷ []
unfolding to_string
to_string-step n h =
    rw
      (digits_from-ge n n h, digits_from-fuel n (suc (n / 10)) (n / 10) (omega arith) (omega arith))

-- The number that a text of digits writes, with no bound.
unfoldable pub decimal : ℕ → Bytes → ℕ
decimal value [] = value
decimal value (c ∷ seg) = decimal (value * 10 + (c - 0x30)) seg

abbrev pub IsDigit : ℕ → Type 0
IsDigit c = (0x30 ≤ c) × (c ≤ 0x39)

decimal-snoc :
    (value : ℕ) (s : Bytes) (c : ℕ)
    → decimal value (s ++ c ∷ []) ≡ decimal value s * 10 + (c - 0x30)
unfolding decimal
decimal-snoc value [] c = refl
decimal-snoc value (d ∷ s) c = decimal-snoc (value * 10 + (d - 0x30)) s c

digits_from-digits : (f n : ℕ) → All IsDigit (digits_from f n)
digits_from-digits zero n = unfold digits_from in tt
digits_from-digits (suc f) n = elim (dec_lt n 10) [
  | yes small ↦ rw (digits_from-lt f n small) ((omega arith, omega arith), tt)
  | no large ↦ rw (digits_from-ge f n (omega arith)) (
      All-append IsDigit (digits_from f (n / 10)) ((0x30 + n % 10) ∷ [])
        (digits_from-digits f (n / 10)) ((omega arith, omega arith), tt))
]

pub to_string-digits : (n : ℕ) → All IsDigit (to_string n)
unfolding to_string
to_string-digits n = digits_from-digits (suc n) n

decimal-digits_from : (f n : ℕ) → n < f → decimal 0 (digits_from f n) ≡ n
decimal-digits_from zero n h = absurd (omega arith)
decimal-digits_from (suc f) n h = elim (dec_lt n 10) [
  | yes small ↦ rw (digits_from-lt f n small) (unfold decimal in omega arith)
  | no large ↦
      rw
        (
          digits_from-ge f n (omega arith),
          decimal-snoc 0 (digits_from f (n / 10)) (0x30 + n % 10),
          decimal-digits_from f (n / 10) (omega arith),
        )
        (omega arith)
]

pub decimal-to_string : (n : ℕ) → decimal 0 (to_string n) ≡ n
unfolding to_string
decimal-to_string n = decimal-digits_from (suc n) n (omega arith)

digits_from-pos : (f n : ℕ) → 0 < length (digits_from (suc f) n)
digits_from-pos f n = elim (dec_lt n 10) [
  | yes small ↦ rw (digits_from-lt f n small) (omega arith)
  | no large ↦
      rw (digits_from-ge f n (omega arith), length-snoc (digits_from f (n / 10)) (0x30 + n % 10))
        (omega arith)
]

pub to_string-pos : (n : ℕ) → 0 < length (to_string n)
unfolding to_string
to_string-pos n = digits_from-pos n n

-- The digits after the value so far, and the text after them; none for a value above the cap that is
-- followed by one more digit.
unfoldable pub read_capped : ℕ → ℕ → Bytes → Option (ℕ × Bytes)
read_capped limit v [] = some (v, [])
read_capped limit v (c ∷ s) =
    let rest = read_capped limit (v * 10 + (c - 0x30)) s in
    if leb 0x30 c && leb c 0x39 then (if ltb limit v then none else rest) else some (v, c ∷ s)

abbrev pub starts_digit : Bytes → Bool
starts_digit [] = false
starts_digit (c ∷ s) = leb 0x30 c && leb c 0x39

pub decimal-ge : (v : ℕ) (s : Bytes) → v ≤ decimal v s
unfolding decimal
decimal-ge v [] = omega arith
decimal-ge v (c ∷ s) = omega (arith, decimal-ge (v * 10 + (c - 0x30)) s)

pub read_capped-digits :
    (limit v : ℕ) (s rest : Bytes)
    → All IsDigit s
    → starts_digit rest ≡ false
    → decimal v s ≤ limit * 10 + 9
    → read_capped limit v (s ++ rest) ≡ some (decimal v s, rest)
unfolding read_capped decimal
read_capped-digits limit v [] [] h apart small = refl
read_capped-digits limit v [] (c ∷ rest) h apart small = ground arith
read_capped-digits limit v (c ∷ s) rest h apart small = ground (
  arith,
  decimal-ge (v * 10 + (c - 0x30)) s,
  read_capped-digits limit (v * 10 + (c - 0x30)) s rest h.1 apart small,
)

-- A number that is written is read.
pub read_capped-to_string :
    (limit n : ℕ) (rest : Bytes)
    → starts_digit rest ≡ false
    → n ≤ limit * 10 + 9
    → read_capped limit 0 (to_string n ++ rest) ≡ some (n, rest)
read_capped-to_string limit n rest apart small =
    let e = decimal-to_string n in
    read_capped-digits limit 0 (to_string n) rest (to_string-digits n) apart (omega (arith, e))
    ∙ ap (λ (m : ℕ). some (m, rest)) e

pub starts_digit-append :
    (s t : Bytes) → All IsDigit s → 0 < length s → starts_digit (s ++ t) ≡ true
starts_digit-append [] t h k = absurd (omega arith)
starts_digit-append (c ∷ s) t h k = ground arith
