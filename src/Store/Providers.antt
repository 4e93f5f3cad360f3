-- ===== src/Store/Providers.antt =====
-- src/store.cpp: the tables that tell which provider carries a show, `provider_binding`,
-- `provider_absence`, `provider_pin` and `provider_route`, with the foreign keys to `show`. Of a row of
-- `show` the columns of the catalog are kept. `Database` answers for the statements: the fault of each
-- one, and the error of a constraint that is violated. A writer gives the tables that it leaves.
pub mod Reads
pub mod Runs
pub mod Sound
pub mod Cascade
pub mod Reach
pub mod Bind
pub mod Tests
use shigoku.Domain.Types.{Enrichment}
use shigoku.Store.Types.{Result, StoreError, ok, err}
use shigoku.Store.Keyed.{Keyed, delete_where, upsert, find}
use shigoku.Common.{
  Bytes, List, ℕ, Bool, Option, ◌&&◌, ◌≡◌, bytes_eq, has_value, false, if◌then◌else◌, true, ◌∷◌,
  not, some, ◌↔◌, none, ◌||◌, [], arith, suc, bytes_eq_iff,
}
use shigoku.Common.Int.{ℤ, pos, eq_ℤ, eq_ℤ_iff, ltb_ℤ, ◌+ℤ◌}

pub record Binding : Type 0 where
  pub provider : Bytes
  pub provider_id : Bytes
  pub bound_at : ℤ

pub record BindingRow : Type 0 where
  pub anilist_id : ℤ
  pub provider : Bytes
  pub provider_id : Bytes
  pub bound_at : ℤ

pub record AbsenceRow : Type 0 where
  pub anilist_id : ℤ
  pub provider : Bytes
  pub checked_at : ℤ

-- A row of `provider_pin` or of `provider_route`.
pub record ChoiceRow : Type 0 where
  pub anilist_id : ℤ
  pub choice : Bytes

pub record Tables : Type 0 where
  pub shows : List Enrichment
  pub bindings : List BindingRow
  pub absences : List AbsenceRow
  pub pins : List ChoiceRow
  pub routes : List ChoiceRow

pub record Database : Type 0 where
  pub fault : ℕ → Option StoreError
  pub constraint : StoreError

abbrev pub eq_pair : ℤ × Bytes → ℤ × Bytes → Bool
eq_pair (i, p) (j, q) = eq_ℤ i j && bytes_eq p q

pub eq_pair_iff : (j k : ℤ × Bytes) → (eq_pair j k ≡ true) ↔ (j ≡ k)
eq_pair_iff (i, p) (j, q) = ground (arith, eq_ℤ_iff i j, bytes_eq_iff p q)

abbrev pub eq_edge : Bytes × Bytes → Bytes × Bytes → Bool
eq_edge (p, a) (q, b) = bytes_eq p q && bytes_eq a b

pub eq_edge_iff : (j k : Bytes × Bytes) → (eq_edge j k ≡ true) ↔ (j ≡ k)
eq_edge_iff (p, a) (q, b) = ground (arith, bytes_eq_iff p q, bytes_eq_iff a b)

-- The keys: PRIMARY KEY, and the UNIQUE edge of a binding.
abbrev pub show_key : Keyed ℤ Enrichment
show_key = record { key = λ e. e.anilist_id; eq_key = eq_ℤ; eq_key_iff = eq_ℤ_iff }

abbrev pub binding_key : Keyed (ℤ × Bytes) BindingRow
binding_key = record {
  key = λ r. (r.anilist_id, r.provider);
  eq_key = eq_pair;
  eq_key_iff = eq_pair_iff;
}

abbrev pub edge_key : Keyed (Bytes × Bytes) BindingRow
edge_key = record {
  key = λ r. (r.provider, r.provider_id);
  eq_key = eq_edge;
  eq_key_iff = eq_edge_iff;
}

abbrev pub absence_key : Keyed (ℤ × Bytes) AbsenceRow
absence_key = record {
  key = λ r. (r.anilist_id, r.provider);
  eq_key = eq_pair;
  eq_key_iff = eq_pair_iff;
}

abbrev pub choice_key : Keyed ℤ ChoiceRow
choice_key = record { key = λ r. r.anilist_id; eq_key = eq_ℤ; eq_key_iff = eq_ℤ_iff }

abbrev pub Statement : Type 0
Statement = Tables → Result StoreError Tables

-- The statements from number `i`, up to the first that fails.
unfoldable pub run_statements : Database → ℕ → List Statement → Tables → Result StoreError Tables
run_statements d i [] t = elim (d.fault i) [ none ↦ ok t | some e ↦ err e ]
run_statements d i (s ∷ statements) t = elim (d.fault i) [
  | some e ↦ err e
  | none ↦ elim (s t) [ err e ↦ err e | ok t' ↦ run_statements d (suc i) statements t' ]
]

-- What a ROLLBACK leaves.
abbrev pub or_rollback : Tables → Result StoreError Tables → Result StoreError (Unit {0}) × Tables
or_rollback t (ok t') = (ok tt, t')
or_rollback t (err e) = (err e, t)

-- BEGIN IMMEDIATE, the statements, COMMIT.
abbrev begin : Statement
begin t = ok t

unfoldable pub transaction :
    Database → List Statement → Tables → Result StoreError (Unit {0}) × Tables
transaction d statements t = or_rollback t (run_statements d 0 (begin ∷ statements) t)

-- A statement on its own is its own transaction.
unfoldable pub lone_statement :
    Database → Statement → Tables → Result StoreError (Unit {0}) × Tables
lone_statement d s t = or_rollback t (elim (d.fault 0) [ none ↦ s t | some e ↦ err e ])

-- ON CONFLICT DO NOTHING.
unfoldable pub ensure_show_row : Enrichment → Statement
ensure_show_row e t = ok (record t { shows = upsert show_key e (λ r. r) t.shows })

-- The foreign key of a row that is written.
unfoldable pub has_show : ℤ → Tables → Bool
has_show id t = has_value (find show_key id t.shows)

unfoldable pub steals : ℤ → Bytes → Bytes → BindingRow → Bool
steals id provider provider_id r =
    bytes_eq r.provider provider && bytes_eq r.provider_id provider_id && not (eq_ℤ r.anilist_id id)

unfoldable pub steal_edge : ℤ → Bytes → Bytes → Statement
steal_edge id provider provider_id t =
    ok (record t { bindings = delete_where (steals id provider provider_id) t.bindings })

abbrev pub new_binding : ℤ → Bytes → Bytes → ℤ → BindingRow
new_binding id provider provider_id now = record {
  anilist_id = id;
  provider = provider;
  provider_id = provider_id;
  bound_at = now;
}

-- Another show holds the edge: the UNIQUE constraint is violated.
abbrev pub edge_taken : ℤ → Option BindingRow → Bool
edge_taken id none = false
edge_taken id (some r) = not (eq_ℤ r.anilist_id id)

unfoldable pub write_binding : Database → ℤ → Bytes → Bytes → ℤ → Statement
write_binding d id provider provider_id now t =
    if not (has_show id t) || edge_taken id (find edge_key (provider, provider_id) t.bindings)
    then err d.constraint
    else ok (record t {
      bindings =
          upsert binding_key (new_binding id provider provider_id now)
            (λ r. record r { provider_id = provider_id; bound_at = now }) t.bindings;
    })

abbrev pub is_absence : ℤ → Bytes → AbsenceRow → Bool
is_absence id provider r = eq_pair (r.anilist_id, r.provider) (id, provider)

unfoldable pub clear_absence : ℤ → Bytes → Statement
clear_absence id provider t =
    ok (record t { absences = delete_where (is_absence id provider) t.absences })

unfoldable pub bind_provider :
    Database → Enrichment → Bytes → Bytes → ℤ → Tables → Result StoreError (Unit {0}) × Tables
unfolding transaction
bind_provider d e provider provider_id now t =
    transaction d
      (ensure_show_row e
        ∷ steal_edge e.anilist_id provider provider_id
        ∷ write_binding d e.anilist_id provider provider_id now
        ∷ clear_absence e.anilist_id provider
        ∷ [])
      t

abbrev pub is_binding : ℤ → Bytes → BindingRow → Bool
is_binding id provider r = eq_pair (r.anilist_id, r.provider) (id, provider)

-- The answer tells whether a row was deleted.
unfoldable pub unbind_provider : Database → ℤ → Bytes → Tables → Result StoreError Bool × Tables
unbind_provider d id provider t = elim (d.fault 0) [
  | some e ↦ (err e, t)
  | none ↦ (
    ok (has_value (find binding_key (id, provider) t.bindings)),
    record t { bindings = delete_where (is_binding id provider) t.bindings },
  )
]

unfoldable pub write_absence : Database → ℤ → Bytes → ℤ → Statement
write_absence d id provider now t =
    if has_show id t
    then ok (record t {
      absences =
          upsert absence_key (record { anilist_id = id; provider = provider; checked_at = now })
            (λ r. record r { checked_at = now }) t.absences;
    })
    else err d.constraint

unfoldable pub mark_provider_absent :
    Database → Enrichment → Bytes → ℤ → Tables → Result StoreError (Unit {0}) × Tables
unfolding transaction
mark_provider_absent d e provider now t =
    transaction d (ensure_show_row e ∷ write_absence d e.anilist_id provider now ∷ []) t

abbrev pub put_choice : ℤ → Bytes → List ChoiceRow → List ChoiceRow
put_choice id choice rows =
    upsert choice_key (record { anilist_id = id; choice = choice })
      (λ r. record r { choice = choice }) rows

abbrev pub is_choice : ℤ → ChoiceRow → Bool
is_choice id r = eq_ℤ r.anilist_id id

unfoldable pub write_pin : Database → ℤ → Option Bytes → Statement
write_pin d id none t = ok (record t { pins = delete_where (is_choice id) t.pins })
write_pin d id (some provider) t =
    if has_show id t
    then ok (record t { pins = put_choice id provider t.pins })
    else err d.constraint

unfoldable pub set_provider_pin :
    Database → ℤ → Option Bytes → Tables → Result StoreError (Unit {0}) × Tables
unfolding lone_statement
set_provider_pin d id provider t = lone_statement d (write_pin d id provider) t

unfoldable pub write_route : Database → ℤ → Bytes → Statement
write_route d id pref t =
    if has_show id t
    then ok (record t { routes = put_choice id pref t.routes })
    else err d.constraint

unfoldable pub set_route_pref :
    Database → Enrichment → Bytes → Tables → Result StoreError (Unit {0}) × Tables
unfolding transaction
set_route_pref d e pref t =
    transaction d (ensure_show_row e ∷ write_route d e.anilist_id pref ∷ []) t

-- DELETE of a show, with ON DELETE CASCADE.
unfoldable pub cascade : ℤ → Tables → Tables
cascade id t = record {
  shows = delete_where (λ e. eq_ℤ e.anilist_id id) t.shows;
  bindings = delete_where (λ r. eq_ℤ r.anilist_id id) t.bindings;
  absences = delete_where (λ r. eq_ℤ r.anilist_id id) t.absences;
  pins = delete_where (is_choice id) t.pins;
  routes = delete_where (is_choice id) t.routes;
}

unfoldable pub delete_show : Database → ℤ → Tables → Result StoreError Bool × Tables
unfolding cascade
delete_show d id t = elim (d.fault 0) [
  | some e ↦ (err e, t)
  | none ↦ (ok (has_show id t), cascade id t)
]
