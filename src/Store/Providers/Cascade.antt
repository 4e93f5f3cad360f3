-- ===== src/Store/Providers/Cascade.antt =====
-- src/store.cpp, `delete_show`: the constraints of the provider tables after the cascade.
use shigoku.Store.Keyed.Laws.{KeysApart-delete_where, All-delete_where, find-delete_where, key-find}
use shigoku.Store.Keyed.{KeysApart, delete_where, find}
use shigoku.Domain.Types.{Enrichment}
use shigoku.Store.Providers.{
  cascade, Tables, show_key, binding_key, edge_key, absence_key, choice_key,
}
use shigoku.Common.{List, ◌≡◌, false, Option-cases, inl, inr, refl}
use shigoku.Common.Int.{ℤ, eq_ℤ}
use shigoku.Store.Providers.Sound.{IsSound, HasShow}

-- The rows that a cascade leaves have their show still.
HasShow-left :
    (id j : ℤ) (shows : List Enrichment)
    → KeysApart show_key shows
    → eq_ℤ j id ≡ false
    → HasShow shows j
    → HasShow (delete_where (λ e. eq_ℤ e.anilist_id id) shows) j
HasShow-left id j shows a n h = elim (Option-cases (find show_key j shows)) [
  | inl e ↦ absurd (cc (rw e at h))
  | inr (x, e) ↦
      rw
        (
          find-delete_where show_key (λ e. eq_ℤ e.anilist_id id) j shows a,
          e,
          key-find show_key j shows x e,
          n,
        )
        refl
]

pub cascade-IsSound : (id : ℤ) (t : Tables) → IsSound t → IsSound (cascade id t)
unfolding cascade
cascade-IsSound id t i = record {
  shows = KeysApart-delete_where show_key _ t.shows i.shows;
  bindings = KeysApart-delete_where binding_key _ t.bindings i.bindings;
  edges = KeysApart-delete_where edge_key _ t.bindings i.edges;
  absences = KeysApart-delete_where absence_key _ t.absences i.absences;
  pins = KeysApart-delete_where choice_key _ t.pins i.pins;
  routes = KeysApart-delete_where choice_key _ t.routes i.routes;
  bindings_shown =
      All-delete_where _ _ _ (λ r n h. HasShow-left id r.anilist_id t.shows i.shows n h) t.bindings
        i.bindings_shown;
  absences_shown =
      All-delete_where _ _ _ (λ r n h. HasShow-left id r.anilist_id t.shows i.shows n h) t.absences
        i.absences_shown;
  pins_shown =
      All-delete_where _ _ _ (λ r n h. HasShow-left id r.anilist_id t.shows i.shows n h) t.pins
        i.pins_shown;
  routes_shown =
      All-delete_where _ _ _ (λ r n h. HasShow-left id r.anilist_id t.shows i.shows n h) t.routes
        i.routes_shown;
}
