-- ===== src/Store/Rows/Laws.antt =====
-- What an UPDATE does to the rows of a table.
use shigoku.Common.{ℕ, zero, suc, ◌≡◌, refl, Bool, [], ◌∷◌, some, arith, get_elem?, length}
use shigoku.Store.Rows.{Row, Table, update_row, update_where}

pub get_elem?-update_where :
    (selects : Row → Bool) (write : Row → Row) (rows : Table) (i : ℕ) (r : Row)
    → get_elem? rows i ≡ some r
    → get_elem? (update_where selects write rows) i ≡ some (update_row selects write r)
unfolding update_where
get_elem?-update_where selects write [] i r h = absurd (cc)
get_elem?-update_where selects write (s ∷ rows) zero r h = ground arith
get_elem?-update_where selects write (s ∷ rows) (suc i) r h =
    get_elem?-update_where selects write rows i r h

pub length-update_where :
    (selects : Row → Bool) (write : Row → Row) (rows : Table)
    → length (update_where selects write rows) ≡ length rows
unfolding update_where
length-update_where selects write [] = refl
length-update_where selects write (s ∷ rows) = omega (arith, length-update_where selects write rows)
