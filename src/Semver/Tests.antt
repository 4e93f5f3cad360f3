-- ===== src/Semver/Tests.antt =====
-- The version laws at sample texts.
use shigoku.Common.{◌≡◌, refl, some, codes, ◌%◌, ◌^◌}
use shigoku.Common.Decimal.{decimal}
use shigoku.Semver.{parse_field}
use shigoku.Semver.Laws.{parse_field-wraps}

-- "4294967297", which is 2^32 + 1, reads as 1.
parse_field-wraps_example :
    parse_field (codes "4294967297") ≡ some (decimal 0 (codes "4294967297") % 2 ^ 32)
parse_field-wraps_example =
    parse_field-wraps 0x34 (codes "294967297")
      (refl, (refl, (refl, (refl, (refl, (refl, (refl, (refl, (refl, (refl, tt))))))))))
