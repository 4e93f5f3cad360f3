-- ===== src/Store/Providers/Sound.antt =====
-- src/store.cpp: the constraints of the provider tables, over any sequence of the writers.
use shigoku.Store.Keyed.Second.{OnlyOwn, KeysApart-second}
use shigoku.Store.Keyed.Laws.{
  find-upsert_self, KeysApart-upsert, All-map, KeysApart-delete_where, find-upsert_other,
  All-delete_where, All-upsert, key-find,
}
use shigoku.Store.Keyed.{KeysApart, find, delete_where}
use shigoku.Domain.Types.{Enrichment}
use shigoku.Store.Providers.{
  Tables, BindingRow, AbsenceRow, upsert, show_key, binding_key, edge_key, absence_key, choice_key,
  ChoiceRow, put_choice, edge_taken, new_binding,
}
use shigoku.Common.{
  List, has_value, Bool-cases, Bool, inl, ◌≡◌, refl, inr, true, All, Bytes, false, some, arith,
}
use mathlib.Core.Path.{subst, ap}
use shigoku.Common.Int.{ℤ, eq_ℤ, eq_ℤ_iff}

abbrev pub HasShow : List Enrichment → ℤ → Type 0
HasShow shows id = has_value (find show_key id shows) ≡ true

-- The primary keys, the unique edge, and the foreign keys.
pub record IsSound (t : Tables) : Type 0 where
  pub shows : KeysApart show_key t.shows
  pub bindings : KeysApart binding_key t.bindings
  pub edges : KeysApart edge_key t.bindings
  pub absences : KeysApart absence_key t.absences
  pub pins : KeysApart choice_key t.pins
  pub routes : KeysApart choice_key t.routes
  pub bindings_shown : All (λ r. HasShow t.shows r.anilist_id) t.bindings
  pub absences_shown : All (λ r. HasShow t.shows r.anilist_id) t.absences
  pub pins_shown : All (λ r. HasShow t.shows r.anilist_id) t.pins
  pub routes_shown : All (λ r. HasShow t.shows r.anilist_id) t.routes

module _ (e : Enrichment) (shows : List Enrichment) where
  abbrev pub with_show : List Enrichment
  with_show = upsert show_key e (λ r. r) shows

  pub HasShow-own : HasShow with_show e.anilist_id
  HasShow-own = rw (find-upsert_self show_key e (λ r. r) (λ r. refl) shows)

  HasShow-kept : (id : ℤ) → HasShow shows id → HasShow with_show id
  HasShow-kept id h = elim (Bool-cases (eq_ℤ e.anilist_id id)) [
    | inl g ↦ subst (HasShow with_show) ((eq_ℤ_iff e.anilist_id id).0 g) HasShow-own
    | inr g ↦
        rw
          (find-upsert_other show_key e (λ r. r) (λ r. refl) id shows
            (λ q. cc (g, (eq_ℤ_iff e.anilist_id id).1 q)))
          h
  ]

pub ensure-IsSound :
    (e : Enrichment) (t : Tables) → IsSound t → IsSound (record t { shows = with_show e t.shows })
ensure-IsSound e t i = record {
  shows = KeysApart-upsert show_key e (λ r. r) (λ r. refl) t.shows i.shows;
  bindings = i.bindings;
  edges = i.edges;
  absences = i.absences;
  pins = i.pins;
  routes = i.routes;
  bindings_shown =
      All-map _ _ (λ r. HasShow-kept e t.shows r.anilist_id) t.bindings i.bindings_shown;
  absences_shown =
      All-map _ _ (λ r. HasShow-kept e t.shows r.anilist_id) t.absences i.absences_shown;
  pins_shown = All-map _ _ (λ r. HasShow-kept e t.shows r.anilist_id) t.pins i.pins_shown;
  routes_shown = All-map _ _ (λ r. HasShow-kept e t.shows r.anilist_id) t.routes i.routes_shown;
}

pub delete_bindings-IsSound :
    (selects : BindingRow → Bool) (t : Tables)
    → IsSound t
    → IsSound (record t { bindings = delete_where selects t.bindings })
delete_bindings-IsSound selects t i = record {
  shows = i.shows;
  bindings = KeysApart-delete_where binding_key selects t.bindings i.bindings;
  edges = KeysApart-delete_where edge_key selects t.bindings i.edges;
  absences = i.absences;
  pins = i.pins;
  routes = i.routes;
  bindings_shown = All-delete_where _ _ selects (λ r g h. h) t.bindings i.bindings_shown;
  absences_shown = i.absences_shown;
  pins_shown = i.pins_shown;
  routes_shown = i.routes_shown;
}

pub delete_absences-IsSound :
    (selects : AbsenceRow → Bool) (t : Tables)
    → IsSound t
    → IsSound (record t { absences = delete_where selects t.absences })
delete_absences-IsSound selects t i = record {
  shows = i.shows;
  bindings = i.bindings;
  edges = i.edges;
  absences = KeysApart-delete_where absence_key selects t.absences i.absences;
  pins = i.pins;
  routes = i.routes;
  bindings_shown = i.bindings_shown;
  absences_shown = All-delete_where _ _ selects (λ r g h. h) t.absences i.absences_shown;
  pins_shown = i.pins_shown;
  routes_shown = i.routes_shown;
}

pub write_absence-IsSound :
    (id : ℤ) (provider : Bytes) (now : ℤ) (t : Tables)
    → HasShow t.shows id
    → IsSound t
    → IsSound (record t {
      absences =
          upsert absence_key
            (record { anilist_id = id; provider = provider; checked_at = now })
            (λ r. record r { checked_at = now })
            t.absences;
    })
write_absence-IsSound id provider now t shown i = record {
  shows = i.shows;
  bindings = i.bindings;
  edges = i.edges;
  absences = KeysApart-upsert absence_key _ _ (λ r. refl) t.absences i.absences;
  pins = i.pins;
  routes = i.routes;
  bindings_shown = i.bindings_shown;
  absences_shown = All-upsert absence_key _ _ _ shown (λ r h. h) t.absences i.absences_shown;
  pins_shown = i.pins_shown;
  routes_shown = i.routes_shown;
}

pub pins-IsSound :
    (rows : List ChoiceRow) (t : Tables)
    → KeysApart choice_key rows
    → All (λ r. HasShow t.shows r.anilist_id) rows
    → IsSound t
    → IsSound (record t { pins = rows })
pins-IsSound rows t a s i = record {
  shows = i.shows;
  bindings = i.bindings;
  edges = i.edges;
  absences = i.absences;
  pins = a;
  routes = i.routes;
  bindings_shown = i.bindings_shown;
  absences_shown = i.absences_shown;
  pins_shown = s;
  routes_shown = i.routes_shown;
}

pub write_route-IsSound :
    (id : ℤ) (pref : Bytes) (t : Tables)
    → HasShow t.shows id
    → IsSound t
    → IsSound (record t { routes = put_choice id pref t.routes })
write_route-IsSound id pref t shown i = record {
  shows = i.shows;
  bindings = i.bindings;
  edges = i.edges;
  absences = i.absences;
  pins = i.pins;
  routes = KeysApart-upsert choice_key _ _ (λ r. refl) t.routes i.routes;
  bindings_shown = i.bindings_shown;
  absences_shown = i.absences_shown;
  pins_shown = i.pins_shown;
  routes_shown = All-upsert choice_key _ _ _ shown (λ r h. h) t.routes i.routes_shown;
}

module _ (id : ℤ) (provider provider_id : Bytes) (now : ℤ) where
  abbrev pub rebind : BindingRow → BindingRow
  rebind r = record r { provider_id = provider_id; bound_at = now }

  rebind_edge :
      (r : BindingRow)
      → binding_key.key r ≡ (id, provider)
      → edge_key.key (rebind r) ≡ (provider, provider_id)
  rebind_edge r h = cc (ap (λ k. k.1) h)

  own_key :
      (x : BindingRow)
      → edge_taken id (some x) ≡ false
      → x.provider ≡ provider
      → binding_key.key x ≡ (id, provider)
  own_key x h e = ground (arith, eq_ℤ_iff x.anilist_id id)

  -- The only row that can hold the edge is the show's own.
  own_edge :
      (rows : List BindingRow)
      → edge_taken id (find edge_key (provider, provider_id) rows) ≡ false
      → OnlyOwn binding_key edge_key
          (new_binding id provider provider_id now)
          rebind
          rebind_edge
          rows
  own_edge rows h x f =
      let k = key-find edge_key (provider, provider_id) rows x f in
      own_key x (rw f at h) (ap (λ j. j.0) k)

  pub write_binding-IsSound :
      (t : Tables)
      → HasShow t.shows id
      → edge_taken id (find edge_key (provider, provider_id) t.bindings) ≡ false
      → IsSound t
      → IsSound (record t {
        bindings = upsert binding_key (new_binding id provider provider_id now) rebind t.bindings;
      })
  write_binding-IsSound t shown free i = record {
    shows = i.shows;
    bindings = KeysApart-upsert binding_key _ rebind (λ r. refl) t.bindings i.bindings;
    edges =
        KeysApart-second binding_key edge_key _ rebind rebind_edge t.bindings i.bindings i.edges
          (own_edge t.bindings free);
    absences = i.absences;
    pins = i.pins;
    routes = i.routes;
    bindings_shown = All-upsert binding_key _ _ rebind shown (λ r h. h) t.bindings i.bindings_shown;
    absences_shown = i.absences_shown;
    pins_shown = i.pins_shown;
    routes_shown = i.routes_shown;
  }
