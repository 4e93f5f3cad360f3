-- ===== src/Picker/Tests.antt =====
-- The picker at sample rows.
use shigoku.Common.Decimal.{to_string, digits_from}
use shigoku.Common.{List, Bytes, get_elem?, ◌≡◌, codes, ◌∷◌, some, [], none, ◌++◌, refl}
use shigoku.Picker.{fzf_pick, numbered, picked, exited, parse_selection, Ending}
use shigoku.Picker.RoundTrip.{fzf_pick-row}

abbrev rows : List Bytes
rows = codes "Naruto" ∷ codes "2. Naruto" ∷ codes "Naruto" ∷ []

abbrev answers : Bytes → Ending × Bytes
answers fed = (exited 0, codes "3. Naruto" ++ (0x0A ∷ []))

third : get_elem? (numbered rows) 2 ≡ some (codes "3. Naruto")
unfolding numbered to_string digits_from
third = refl

fzf_pick-row_example : fzf_pick answers rows ≡ picked 2
fzf_pick-row_example = fzf_pick-row answers rows 2 (codes "3. Naruto") [] third refl

out_of_range : parse_selection (codes "4. Naruto") 3 ≡ none
unfolding parse_selection
out_of_range = refl
