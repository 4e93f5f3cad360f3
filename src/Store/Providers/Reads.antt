-- ===== src/Store/Providers/Reads.antt =====
-- src/store.cpp: the readers of the provider tables. `fault` is the database's answer.
use shigoku.Store.Keyed.{find}
use shigoku.Store.Types.{Result, StoreError}
use shigoku.Store.Providers.{
  Binding, BindingRow, Database, AbsenceRow, Tables, ok, err, absence_key, binding_key, ChoiceRow,
  edge_key, choice_key,
}
use shigoku.Common.{
  Bytes, List, Option, Bool, ◌∷◌, false, if◌then◌else◌, some, true, [], none, ◌==◌, ltb,
}
use shigoku.Common.Int.{ℤ, pos, eq_ℤ, ltb_ℤ, ◌+ℤ◌}

pub data ProviderAvailability : Type 0 where
  unchecked bound absent : ProviderAvailability

-- `kAbsenceTtlSecs`: seven days.
abbrev pub absence_ttl_secs : ℤ
absence_ttl_secs = pos 604800

-- The order of texts, byte by byte.
unfoldable pub bytes_lt : Bytes → Bytes → Bool
bytes_lt s [] = false
bytes_lt [] (d ∷ t) = true
bytes_lt (c ∷ s) (d ∷ t) = let rest = bytes_lt s t in if c == d then rest else ltb c d

-- ORDER BY provider.
unfoldable pub insert_by_provider : Binding → List Binding → List Binding
insert_by_provider b [] = b ∷ []
insert_by_provider b (c ∷ bs) =
    let rest = insert_by_provider b bs in
    if bytes_lt c.provider b.provider then c ∷ rest else b ∷ c ∷ bs

abbrev pub to_binding : BindingRow → Binding
to_binding r = record { provider = r.provider; provider_id = r.provider_id; bound_at = r.bound_at }

unfoldable pub bindings_in : ℤ → List BindingRow → List Binding
bindings_in id [] = []
bindings_in id (r ∷ rows) =
    let rest = bindings_in id rows in
    if eq_ℤ r.anilist_id id then insert_by_provider (to_binding r) rest else rest

abbrev pub answer {ℓ} : {A : Type ℓ} → Option StoreError → A → Result StoreError A
answer none a = ok a
answer (some e) a = err e

unfoldable pub bindings_for : Option StoreError → ℤ → Tables → Result StoreError (List Binding)
unfolding bindings_in
bindings_for fault id t = answer fault (bindings_in id t.bindings)

abbrev pub show_of : Option BindingRow → Option ℤ
show_of none = none
show_of (some r) = some r.anilist_id

abbrev pub choice_of : Option ChoiceRow → Option Bytes
choice_of none = none
choice_of (some r) = some r.choice

unfoldable pub show_id_for_binding :
    Option StoreError → Bytes → Bytes → Tables → Result StoreError (Option ℤ)
show_id_for_binding fault provider provider_id t =
    answer fault (show_of (find edge_key (provider, provider_id) t.bindings))

-- A negative that has not expired.
abbrev pub is_fresh : ℤ → Option AbsenceRow → Bool
is_fresh now none = false
is_fresh now (some r) = ltb_ℤ now (r.checked_at +ℤ absence_ttl_secs)

unfoldable pub provider_absent_fresh :
    Option StoreError → ℤ → Bytes → ℤ → Tables → Result StoreError Bool
provider_absent_fresh fault id provider now t =
    answer fault (is_fresh now (find absence_key (id, provider) t.absences))

abbrev pub after_absence : Result StoreError Bool → Result StoreError ProviderAvailability
after_absence (err e) = err e
after_absence (ok true) = ok absent
after_absence (ok false) = ok unchecked

abbrev pub after_binding :
    Option BindingRow → Result StoreError Bool → Result StoreError ProviderAvailability
after_binding (some r) negative = ok bound
after_binding none negative = after_absence negative

unfoldable pub provider_availability :
    Database → ℤ → Bytes → ℤ → Tables → Result StoreError ProviderAvailability
unfolding provider_absent_fresh
provider_availability d id provider now t = elim (d.fault 0) [
  | some e ↦ err e
  | none ↦
      after_binding (find binding_key (id, provider) t.bindings)
        (provider_absent_fresh (d.fault 1) id provider now t)
]

unfoldable pub get_provider_pin : Option StoreError → ℤ → Tables → Result StoreError (Option Bytes)
get_provider_pin fault id t = answer fault (choice_of (find choice_key id t.pins))

unfoldable pub get_route_pref : Option StoreError → ℤ → Tables → Result StoreError (Option Bytes)
get_route_pref fault id t = answer fault (choice_of (find choice_key id t.routes))
