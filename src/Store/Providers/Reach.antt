-- ===== src/Store/Providers/Reach.antt =====
-- src/store.cpp: the provider tables over sequences of calls, on databases that may fail.
use shigoku.Store.Providers.Cascade.{cascade-IsSound}
use shigoku.Store.Keyed.{find}
use shigoku.Store.Keyed.Laws.{
  KeysApart-delete_where, All-delete_where, KeysApart-upsert, All-upsert,
}
use shigoku.Store.Providers.Sound.{
  IsSound, ensure-IsSound, delete_bindings-IsSound, delete_absences-IsSound, write_absence-IsSound,
  write_route-IsSound, pins-IsSound, write_binding-IsSound,
}
use shigoku.Store.Types.{Result, Result-cases, StoreError}
use shigoku.Store.Providers.Runs.{all_of, transaction-cases, all_of-step, all_of-stop}
use shigoku.Common.{
  List, Bool, Bytes, ◌≡◌, All, Option, ◌∷◌, if◌then◌else◌, [], inl, refl, true, inr, false, ◌∙◌,
  some, none, not, Option-cases, ◌||◌,
}
use shigoku.Store.Providers.{
  Database, Statement, Tables, ensure_show_row, steal_edge, clear_absence, write_absence,
  write_route, write_pin, write_binding, bind_provider, ok, has_show, unbind_provider, or_rollback,
  transaction, mark_provider_absent, err, steals, is_absence, set_provider_pin, set_route_pref,
  choice_key, delete_show, is_choice, is_binding, edge_taken, edge_key,
}
use shigoku.Domain.Types.{Enrichment}
use mathlib.Core.Path.{subst, sym}
use shigoku.Common.Int.{ℤ}

-- A call of a writer.
pub data Call : Type 0 where
  bind : Enrichment → Bytes → Bytes → ℤ → Call
  unbind : ℤ → Bytes → Call
  absence : Enrichment → Bytes → ℤ → Call
  pin : ℤ → Option Bytes → Call
  route : Enrichment → Bytes → Call
  forget : ℤ → Call

abbrev pub after_call : Database → Call → Tables → Tables
after_call d (bind e provider provider_id now) t = (bind_provider d e provider provider_id now t).1
after_call d (unbind id provider) t = (unbind_provider d id provider t).1
after_call d (absence e provider now) t = (mark_provider_absent d e provider now t).1
after_call d (pin id provider) t = (set_provider_pin d id provider t).1
after_call d (route e pref) t = (set_route_pref d e pref t).1
after_call d (forget id) t = (delete_show d id t).1

-- Each call may meet faults of its own.
abbrev pub after_calls : List (Database × Call) → Tables → Tables
after_calls [] t = t
after_calls ((d, c) ∷ calls) t = after_calls calls (after_call d c t)

abbrev Keeps : Statement → Type 0
Keeps s = (t t' : Tables) → s t ≡ ok t' → IsSound t → IsSound t'

ok_inj : {t t' : Tables} → ◌≡◌ {A = Result StoreError Tables} (ok t) (ok t') → t ≡ t'
ok_inj h = cc

all_of-IsSound :
    (statements : List Statement)
    → All Keeps statements
    → (t t' : Tables) → all_of statements t ≡ ok t'
    → IsSound t
    → IsSound t'
unfolding all_of
all_of-IsSound [] keeps t t' h i = subst IsSound (ok_inj h) i
all_of-IsSound (s ∷ statements) keeps t t' h i = elim (Result-cases (s t)) [
  | inl (u, e) ↦
      all_of-IsSound statements keeps.1 u t' (sym (all_of-step s statements t u e) ∙ h)
        (keeps.0 t u e i)
  | inr (e, f) ↦ absurd (cc (sym (all_of-stop s statements t e f) ∙ h))
]

or_rollback-IsSound :
    (r : Result StoreError Tables) (t : Tables)
    → IsSound t
    → ((t' : Tables) → r ≡ ok t' → IsSound t')
    → IsSound (or_rollback t r).1
or_rollback-IsSound (ok t') t i f = f t' refl
or_rollback-IsSound (err e) t i f = i

transaction-IsSound :
    (d : Database) (statements : List Statement)
    → All Keeps statements
    → (t : Tables) → IsSound t
    → IsSound (transaction d statements t).1
transaction-IsSound d statements keeps t i = elim (transaction-cases d statements t) [
  | inl (e, _, h) ↦ rw h i
  | inr h ↦ rw h (
      or_rollback-IsSound (all_of statements t) t i
        (λ t' e. all_of-IsSound statements keeps t t' e i))
]

ensure_show_row-Keeps : (e : Enrichment) → Keeps (ensure_show_row e)
unfolding ensure_show_row
ensure_show_row-Keeps e t t' h i = subst IsSound (ok_inj h) (ensure-IsSound e t i)

steal_edge-Keeps : (id : ℤ) (p a : Bytes) → Keeps (steal_edge id p a)
unfolding steal_edge
steal_edge-Keeps id p a t t' h i =
    subst IsSound (ok_inj h) (delete_bindings-IsSound (steals id p a) t i)

clear_absence-Keeps : (id : ℤ) (p : Bytes) → Keeps (clear_absence id p)
unfolding clear_absence
clear_absence-Keeps id p t t' h i =
    subst IsSound (ok_inj h) (delete_absences-IsSound (is_absence id p) t i)

-- A statement that checks a constraint first.
checked-IsSound :
    (c : Bool) (e : StoreError) (t u t' : Tables)
    → (if c then ok u else err e) ≡ ok t'
    → (c ≡ true → IsSound u)
    → IsSound t'
checked-IsSound true e t u t' h f = subst IsSound (ok_inj h) (f refl)
checked-IsSound false e t u t' h f = absurd (cc)

write_absence-Keeps :
    (d : Database) (id : ℤ) (p : Bytes) (now : ℤ) → Keeps (write_absence d id p now)
unfolding write_absence has_show
write_absence-Keeps d id p now t t' h i =
    checked-IsSound (has_show id t) d.constraint t _ t' h
      (λ shown. write_absence-IsSound id p now t shown i)

write_route-Keeps : (d : Database) (id : ℤ) (pref : Bytes) → Keeps (write_route d id pref)
unfolding write_route has_show
write_route-Keeps d id pref t t' h i =
    checked-IsSound (has_show id t) d.constraint t _ t' h
      (λ shown. write_route-IsSound id pref t shown i)

write_pin-Keeps : (d : Database) (id : ℤ) (p : Option Bytes) → Keeps (write_pin d id p)
unfolding write_pin has_show
write_pin-Keeps d id none t t' h i = subst IsSound (ok_inj h) (
    pins-IsSound _ t (KeysApart-delete_where choice_key (is_choice id) t.pins i.pins)
      (All-delete_where _ _ (is_choice id) (λ r g k. k) t.pins i.pins_shown) i)
write_pin-Keeps d id (some p) t t' h i =
    checked-IsSound (has_show id t) d.constraint t _ t' h (λ shown.
      pins-IsSound _ t (KeysApart-upsert choice_key _ _ (λ r. refl) t.pins i.pins)
        (All-upsert choice_key _ _ _ shown (λ r k. k) t.pins i.pins_shown) i)

-- What the guard of the binding's INSERT comes to.
pub allowed : (shown taken : Bool) → (not shown || taken) ≡ false → (shown ≡ true) × (taken ≡ false)
allowed true taken h = (refl, h)
allowed false taken h = absurd (cc)

refused-IsSound :
    (c : Bool) (e : StoreError) (u t' : Tables)
    → (if c then err e else ok u) ≡ ok t'
    → (c ≡ false → IsSound u)
    → IsSound t'
refused-IsSound true e u t' h f = absurd (cc)
refused-IsSound false e u t' h f = subst IsSound (ok_inj h) (f refl)

write_binding-Keeps :
    (d : Database) (id : ℤ) (p a : Bytes) (now : ℤ) → Keeps (write_binding d id p a now)
unfolding write_binding has_show
write_binding-Keeps d id p a now t t' h i =
    refused-IsSound (not (has_show id t) || edge_taken id (find edge_key (p, a) t.bindings))
      d.constraint _ t' h
      (λ c.
        write_binding-IsSound id p a now t (allowed (has_show id t) _ c).0
          (allowed (has_show id t) _ c).1 i)

pub bind_provider-IsSound :
    (d : Database) (e : Enrichment) (p a : Bytes) (now : ℤ) (t : Tables)
    → IsSound t
    → IsSound (bind_provider d e p a now t).1
unfolding bind_provider
bind_provider-IsSound d e p a now t =
    transaction-IsSound d _
      (
        ensure_show_row-Keeps e,
        (
          steal_edge-Keeps e.anilist_id p a,
          (write_binding-Keeps d e.anilist_id p a now, (clear_absence-Keeps e.anilist_id p, tt)),
        ),
      )
      t

unbind_provider-IsSound :
    (d : Database) (id : ℤ) (p : Bytes) (t : Tables)
    → IsSound t
    → IsSound (unbind_provider d id p t).1
unfolding unbind_provider
unbind_provider-IsSound d id p t i = elim (Option-cases (d.fault 0)) [
  | inl n ↦ rw (n, unbind_provider) (delete_bindings-IsSound (is_binding id p) t i)
  | inr (e, n) ↦ rw (n, unbind_provider) i
]

set_provider_pin-IsSound :
    (d : Database) (id : ℤ) (p : Option Bytes) (t : Tables)
    → IsSound t
    → IsSound (set_provider_pin d id p t).1
unfolding set_provider_pin
set_provider_pin-IsSound d id p t i = elim (Option-cases (d.fault 0)) [
  | inl n ↦
      rw (n, set_provider_pin)
        (or_rollback-IsSound (write_pin d id p t) t i (λ t' h. write_pin-Keeps d id p t t' h i))
  | inr (e, n) ↦ rw (n, set_provider_pin) i
]

delete_show-IsSound :
    (d : Database) (id : ℤ) (t : Tables) → IsSound t → IsSound (delete_show d id t).1
unfolding delete_show
delete_show-IsSound d id t i = elim (Option-cases (d.fault 0)) [
  | inl n ↦ rw (n, delete_show) (cascade-IsSound id t i)
  | inr (e, n) ↦ rw (n, delete_show) i
]

-- One call keeps the constraints, whatever faults it meets.
after_call-IsSound : (d : Database) (c : Call) (t : Tables) → IsSound t → IsSound (after_call d c t)
unfolding mark_provider_absent set_route_pref
after_call-IsSound d (bind e p a now) t i = bind_provider-IsSound d e p a now t i
after_call-IsSound d (unbind id p) t i = unbind_provider-IsSound d id p t i
after_call-IsSound d (absence e p now) t i =
    transaction-IsSound d _
      (ensure_show_row-Keeps e, (write_absence-Keeps d e.anilist_id p now, tt)) t i
after_call-IsSound d (pin id p) t i = set_provider_pin-IsSound d id p t i
after_call-IsSound d (route e pref) t i =
    transaction-IsSound d _ (ensure_show_row-Keeps e, (write_route-Keeps d e.anilist_id pref, tt)) t
      i
after_call-IsSound d (forget id) t i = delete_show-IsSound d id t i

-- Any sequence of binds, unbinds, negatives, pins, routes and deletions, each on a database with faults of
-- its own, keeps the constraints of the tables: every primary key is unique, no two shows hold the same
-- (provider, provider id) edge, and every row belongs to a show.
pub after_calls-IsSound :
    (calls : List (Database × Call)) (t : Tables) → IsSound t → IsSound (after_calls calls t)
after_calls-IsSound [] t i = i
after_calls-IsSound ((d, c) ∷ calls) t i =
    after_calls-IsSound calls (after_call d c t) (after_call-IsSound d c t i)
