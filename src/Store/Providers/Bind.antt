-- ===== src/Store/Providers/Bind.antt =====
-- src/store.cpp, `bind_provider`: what it leaves in the tables.
use shigoku.Store.Types.{StoreError}
use shigoku.Store.Keyed.{find, delete_where}
use shigoku.Store.Keyed.Laws.{key-find, find-kept}
use shigoku.Store.Providers.Sound.{HasShow-own, rebind}
use shigoku.Store.Providers.Runs.{all_of, transaction-cases, all_of-step, Faulted}
use shigoku.Store.Providers.{
  Tables, steals, bind_provider, upsert, BindingRow, ensure_show_row, Database, show_key,
  edge_taken, edge_key, steal_edge, binding_key, write_binding, new_binding, clear_absence, err,
  has_show, is_absence, ok, or_rollback, Statement,
}
use shigoku.Common.{
  Bytes, List, ◌≡◌, false, Option-cases, some, ◌⊎◌, inl, arith, ◌∷◌, inr, bytes_eq_complete, [], ap,
  ◌∙◌, refl, has_value, true,
}
use shigoku.Domain.Types.{Enrichment}
use shigoku.Common.Int.{ℤ}

module _ (e : Enrichment) (provider provider_id : Bytes) (now : ℤ) where
  -- The tables after the call.
  abbrev pub bound_tables : Tables → Tables
  bound_tables t = record t {
    shows = upsert show_key e (λ r. r) t.shows;
    bindings =
        upsert binding_key (new_binding e.anilist_id provider provider_id now)
          (rebind e.anilist_id provider provider_id now)
          (delete_where (steals e.anilist_id provider provider_id) t.bindings);
    absences = delete_where (is_absence e.anilist_id provider) t.absences;
  }

  not_stolen :
      (x : BindingRow)
      → edge_key.key x ≡ (provider, provider_id)
      → steals e.anilist_id provider provider_id x ≡ false
      → edge_taken e.anilist_id (some x) ≡ false
  unfolding steals
  not_stolen x k h = ground (
    arith,
    bytes_eq_complete x.provider provider (ap (λ j. j.0) k),
    bytes_eq_complete x.provider_id provider_id (ap (λ j. j.1) k),
    h,
  )

  -- After the theft nobody else holds the edge.
  edge_free :
      (rows : List BindingRow)
      → edge_taken e.anilist_id (
          find edge_key
            (provider, provider_id)
            (delete_where (steals e.anilist_id provider provider_id) rows))
        ≡ false
  edge_free rows =
      elim (Option-cases (
        find edge_key (provider, provider_id)
          (delete_where (steals e.anilist_id provider provider_id) rows))) [
            | inl n ↦ rw n refl
            | inr (x, h) ↦ rw h (
                not_stolen x
                  (key-find edge_key (provider, provider_id)
                    (delete_where (steals e.anilist_id provider provider_id) rows) x h)
                  (find-kept edge_key (steals e.anilist_id provider provider_id)
                    (provider, provider_id) rows x h))
          ]

  abbrev bind_statements : Database → List Statement
  bind_statements d =
      ensure_show_row e
      ∷ steal_edge e.anilist_id provider provider_id
      ∷ write_binding d e.anilist_id provider provider_id now
      ∷ clear_absence e.anilist_id provider
      ∷ []

  write_ok :
      (d : Database) (t : Tables)
      → has_value (find show_key e.anilist_id t.shows) ≡ true
      → edge_taken e.anilist_id (find edge_key (provider, provider_id) t.bindings) ≡ false
      → write_binding d e.anilist_id provider provider_id now t
        ≡ ok (record t {
          bindings =
              upsert binding_key
                (new_binding e.anilist_id provider provider_id now)
                (rebind e.anilist_id provider provider_id now)
                t.bindings;
        })
  unfolding write_binding has_show
  write_ok d t h g = rw (h, g)

  -- All statements succeed, on any tables.
  all_of-bind : (d : Database) (t : Tables) → all_of (bind_statements d) t ≡ ok (bound_tables t)
  unfolding all_of ensure_show_row steal_edge clear_absence
  all_of-bind d t =
      let t1 : Tables = record t { shows = upsert show_key e (λ r. r) t.shows } in
      let t2 : Tables = record t1 {
        bindings = delete_where (steals e.anilist_id provider provider_id) t.bindings;
      } in
      all_of-step (write_binding d e.anilist_id provider provider_id now)
        (clear_absence e.anilist_id provider ∷ []) t2 _
        (write_ok d t2 (HasShow-own e t.shows) (edge_free t.bindings))

  -- On any tables, a bind fails only where a statement met a fault of the database, never by a constraint,
  -- and then changes nothing; else it succeeds, with the show in its table, the edge stolen from any
  -- other show, the binding written and the negative cleared: never a part of that.
  pub bind_provider_atomic :
      (d : Database) (t : Tables)
      → ((er : StoreError) × Faulted d er
          × (bind_provider d e provider provider_id now t ≡ (err er, t)))
        ⊎ (bind_provider d e provider provider_id now t ≡ (ok tt, bound_tables t))
  unfolding bind_provider
  bind_provider_atomic d t = elim (transaction-cases d (bind_statements d) t) [
    | inl h ↦ inl h
    | inr h ↦ inr (h ∙ ap (or_rollback t) (all_of-bind d t))
  ]

  -- What the readers say after the bind.
  abbrev row : BindingRow
  row = new_binding e.anilist_id provider provider_id now
