-- ===== src/Semver/Laws.antt =====
-- src/semver.cpp: the order of versions, and the value of a segment of digits.
use shigoku.Common.{
  ℕ, ◌+◌, ◌-◌, ◌*◌, ◌%◌, ◌^◌, ◌≡◌, refl, true, false, [], ◌∷◌, Option, none, some, Bytes, arith,
  All,
}
use shigoku.Common.Decimal.{decimal}
use shigoku.Semver.{
  Version, is_greater, is_newer, parse_version, parse_field, field_from, is_digit, both_greater,
}

is_greater_irrefl : (a : Version) → is_greater a a ≡ false
unfolding is_greater
is_greater_irrefl a = ground arith

is_greater_trans :
    (a b c : Version) → is_greater a b ≡ true → is_greater b c ≡ true → is_greater a c ≡ true
unfolding is_greater
is_greater_trans a b c h k = ground arith

-- Being newer is a strict order on version texts, whether or not they parse: no text is newer than
-- itself, and a text newer than one that is newer than a third is newer than the third.
pub is_newer-strict :
    (a b c : Bytes)
    → (is_newer a a ≡ false) × (is_newer a b ≡ true → is_newer b c ≡ true → is_newer a c ≡ true)
unfolding is_newer
is_newer-strict a b c = go (parse_version a) (parse_version b) (parse_version c)
  where
    go :
        (x y z : Option Version)
        → (both_greater x x ≡ false)
          × (both_greater x y ≡ true → both_greater y z ≡ true → both_greater x z ≡ true)
    go none y z = (refl, λ h k. h)
    go (some x) none z = (is_greater_irrefl x, λ h k. ground arith)
    go (some x) (some y) none = (is_greater_irrefl x, λ h k. k)
    go (some x) (some y) (some z) = (is_greater_irrefl x, λ h k. is_greater_trans x y z h k)

abbrev pub AllDigits : Bytes → Type 0
AllDigits = All (λ c. is_digit c ≡ true)

field_from_lem :
    (value : ℕ) (seg : Bytes)
    → AllDigits seg
    → field_from (value % 2 ^ 32) seg ≡ some (decimal value seg % 2 ^ 32)
unfolding field_from decimal
field_from_lem value [] d = refl
field_from_lem value (c ∷ seg) d =
    let same : (value % 2 ^ 32 * 10 + (c - 0x30)) % 2 ^ 32 ≡ (value * 10 + (c - 0x30)) % 2 ^ 32 =
      omega arith in
    rw (d.0, same) (field_from_lem (value * 10 + (c - 0x30)) seg d.1)

-- A segment of digits, at least one, reads as the number it writes modulo 2^32: past that range the
-- number wraps around, and the segment is not refused.
pub parse_field-wraps :
    (c : ℕ) (seg : Bytes)
    → AllDigits (c ∷ seg)
    → parse_field (c ∷ seg) ≡ some (decimal 0 (c ∷ seg) % 2 ^ 32)
unfolding parse_field
parse_field-wraps c seg d = field_from_lem 0 (c ∷ seg) d
