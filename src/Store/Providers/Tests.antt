-- ===== src/Store/Providers/Tests.antt =====
-- src/store.cpp: the provider tables at sample inputs.
use shigoku.Store.Providers.Runs.{Faulted}
use shigoku.Store.Providers.Bind.{bound_tables, bind_provider_atomic}
use shigoku.Store.Providers.Reach.{
  after_calls, after_call, after_calls-IsSound, Call, bind, absence,
}
use shigoku.Store.Types.{StoreError, sqlite}
use shigoku.Store.Keyed.{find, upsert, delete_where}
use shigoku.Common.{
  Bytes, List, none, if◌then◌else◌, [], codes, ◌==◌, ◌≡◌, some, refl, ◌∷◌, bytes_eq, ◌⊎◌,
}
use shigoku.Domain.Types.{Enrichment}
use shigoku.Store.Providers.Sound.{IsSound}
use shigoku.Store.Providers.{
  Database, Tables, bind_provider, binding_key, err, ok, run_statements, ensure_show_row,
  steal_edge, write_binding, has_show, mark_provider_absent, write_absence, clear_absence, steals,
}
use shigoku.Common.Int.{pos}
use shigoku.Domain.Samples.{sample_show}

abbrev pub working : Database
working = record {
  fault = λ i. none;
  constraint = record {
    kind = sqlite;
    detail = codes "constraint failed";
    found = 0;
    expected = 0;
  };
}

-- The commit of a bind fails.
abbrev broken : Database
broken = record working { fault = λ i. if i == 5 then some working.constraint else none }

abbrev no_rows : Tables
no_rows = record { shows = []; bindings = []; absences = []; pins = []; routes = [] }

no_rows-IsSound : IsSound no_rows
no_rows-IsSound = record {
  shows = tt;
  bindings = tt;
  edges = tt;
  absences = tt;
  pins = tt;
  routes = tt;
  bindings_shown = tt;
  absences_shown = tt;
  pins_shown = tt;
  routes_shown = tt;
}

abbrev other_show : Enrichment
other_show = record sample_show { anilist_id = pos 9 }

abbrev senshi : Bytes
senshi = codes "senshi"

-- The edge "a" goes from the one show to the other.
abbrev thefts : List (Database × Call)
thefts =
    (working, absence sample_show senshi (pos 10))
    ∷ (working, bind other_show senshi (codes "a") (pos 20))
    ∷ (broken, bind sample_show senshi (codes "b") (pos 25))
    ∷ (working, bind sample_show senshi (codes "a") (pos 30))
    ∷ []

stolen : find binding_key (pos 9, senshi) (after_calls thefts no_rows).bindings ≡ none
unfolding find bind_provider run_statements ensure_show_row steal_edge write_binding has_show upsert
    mark_provider_absent write_absence delete_where clear_absence steals bytes_eq
stolen = refl

thefts-IsSound : IsSound (after_calls thefts no_rows)
thefts-IsSound = after_calls-IsSound thefts no_rows no_rows-IsSound

bind_provider_atomic_example :
    ((er : StoreError) × Faulted broken er
      × (bind_provider broken sample_show senshi (codes "a") (pos 30) no_rows ≡ (err er, no_rows)))
    ⊎ (bind_provider broken sample_show senshi (codes "a") (pos 30) no_rows
        ≡ (ok tt, bound_tables sample_show senshi (codes "a") (pos 30) no_rows))
bind_provider_atomic_example =
    bind_provider_atomic sample_show senshi (codes "a") (pos 30) broken no_rows

rolled_back :
    bind_provider broken sample_show senshi (codes "a") (pos 30) no_rows
    ≡ (err working.constraint, no_rows)
unfolding bind_provider run_statements ensure_show_row steal_edge write_binding has_show find upsert
    delete_where clear_absence
rolled_back = refl

abbrev taken : Tables
taken = after_call working (bind other_show senshi (codes "a") (pos 20)) no_rows
