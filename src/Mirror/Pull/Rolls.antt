-- ===== src/Mirror/Pull/Rolls.antt =====
-- src/mal_mirror.cpp, `pull_mirror`: the renewals of the token pair.
use shigoku.Common.{
  if◌then◌else◌, ℕ, suc, ◌≤◌, ◌≡◌, refl, Bool, true, false, not, ◌&&◌, List, [], ◌∷◌, Option, none,
  some, arith, Bool-cases, inl, inr, has_value, sym, ◌∙◌, map,
}
use shigoku.Common.Int.{ℤ}
use shigoku.Store.Types.{Result, ok, err}
use shigoku.Mirror.Pull.{
  MalAuth, mal_bearer, Refresh, rolled, refused, unreachable, PullCall, refreshed, fetched_list,
  merged, PullEnv, PullEnd, pull_done, pull_broke, Current, finish, after_roll, conclude,
  fetch_again, after_fetch, fetch_first, start_pull, pull_mirror, MirrorPullSummary, missed,
  pull_terminal, after_merge, refused_token, token_of, ProviderError, UserListEntry, StoreError,
  is_401, is_mal_expired, PullOutcome, MirrorOutcome, is_429, to_remote,
}

abbrev pub refreshes : List PullCall → ℕ
refreshes [] = 0
refreshes (refreshed r ∷ log) = suc (refreshes log)
refreshes (_ ∷ log) = refreshes log

-- The pair that a run was handed, if it was handed a usable one.
abbrev pub renewed_by : Refresh → Option MalAuth
renewed_by (rolled a) = if has_value (mal_bearer a) then some a else none
renewed_by _ = none

abbrev pub renewed : List PullCall → Option MalAuth
renewed [] = none
renewed (refreshed r ∷ log) = renewed_by r
renewed (_ ∷ log) = renewed log

-- At most one renewal, and the summary carries exactly the usable pair that it gave.
abbrev pub KeepsPair : PullEnd → Type 0
KeepsPair (pull_done s log) = (refreshes log ≤ 1) × (s.rolled_to ≡ renewed log)
KeepsPair (pull_broke e log) = refreshes log ≤ 1

-- The pair in use and the calls agree.
abbrev Agrees : Current → List PullCall → Type 0
Agrees cur log =
    (cur.is_rolled ≡ false → (refreshes log ≡ 0) × (renewed log ≡ none))
    × (cur.is_rolled ≡ true → (refreshes log ≡ 1) × (renewed log ≡ some cur.auth))

finish-KeepsPair :
    (cur : Current) (s : MirrorPullSummary) (log : List PullCall)
    → Agrees cur log
    → s.rolled_to ≡ none
    → KeepsPair (pull_done (finish cur s) log)
finish-KeepsPair cur s log a e = elim (Bool-cases cur.is_rolled) [
  | inl h ↦ rw h (omega (arith, (a.1 h).0), sym (a.1 h).1)
  | inr h ↦ rw h (omega (arith, (a.0 h).0), e ∙ sym (a.0 h).1)
]

Agrees-le : (cur : Current) (log : List PullCall) → Agrees cur log → refreshes log ≤ 1
Agrees-le cur log a = elim (Bool-cases cur.is_rolled) [
  | inl h ↦ omega (arith, (a.1 h).0)
  | inr h ↦ omega (arith, (a.0 h).0)
]

-- A roll that is the first one, and what follows it.
after_roll-KeepsPair :
    (rest : Current → List PullCall → PullEnd) (r : Refresh) (log : List PullCall)
    → refreshes log ≡ 0
    → ((cur : Current) → Agrees cur (refreshed r ∷ log) → KeepsPair (rest cur (refreshed r ∷ log)))
    → KeepsPair (after_roll rest r (refreshed r ∷ log))
unfolding after_roll
after_roll-KeepsPair rest refused log z k = (omega (arith, z), refl)
after_roll-KeepsPair rest unreachable log z k = (omega (arith, z), refl)
after_roll-KeepsPair rest (rolled a) log z k = elim (Bool-cases (has_value (mal_bearer a))) [
  | inr h ↦ rw h (omega (arith, z), ground (arith, h))
  | inl h ↦
      let agrees : Agrees (record { auth = a; is_rolled = true }) (refreshed (rolled a) ∷ log) =
        (λ e. absurd (cc), λ e. (omega (arith, z), ground (arith, h))) in
      rw h (k (record { auth = a; is_rolled = true }) agrees)
]

module _ (env : PullEnv) (now : ℤ) where
  after_merge-KeepsPair :
      (cur : Current) (answer : Result StoreError PullOutcome) (log : List PullCall)
      → Agrees cur log
      → KeepsPair (after_merge env now cur answer log)
  after_merge-KeepsPair cur (err e) log a = Agrees-le cur log a
  after_merge-KeepsPair cur (ok out) log a =
      finish-KeepsPair cur (record (pull_terminal MirrorOutcome.completed) { pulled = out }) log a
        refl

  conclude-KeepsPair :
      (cur : Current) (answer : Result ProviderError (List UserListEntry)) (log : List PullCall)
      → Agrees cur log
      → KeepsPair (conclude env now cur answer log)
  unfolding conclude
  conclude-KeepsPair cur (err e) log a = elim (Bool-cases (is_401 e)) [
    | inl h ↦ rw h (finish-KeepsPair cur (pull_terminal MirrorOutcome.unauthorized) log a refl)
    | inr h ↦ elim (Bool-cases (is_429 e)) [
      | inl k ↦
          rw (h, k) (finish-KeepsPair cur (pull_terminal MirrorOutcome.rate_limited) log a refl)
      | inr k ↦ rw (h, k) (finish-KeepsPair cur missed log a refl)
    ]
  ]
  conclude-KeepsPair cur (ok entries) log a =
      after_merge-KeepsPair cur (env.reconcile_mal_pull (map to_remote entries))
        (merged (map to_remote entries) ∷ log) a

  fetch_again-KeepsPair :
      (cur : Current) (log : List PullCall)
      → Agrees cur log
      → KeepsPair (fetch_again env now cur log)
  unfolding fetch_again
  fetch_again-KeepsPair cur log a =
      conclude-KeepsPair cur (env.fetch_list log (token_of env now cur))
        (fetched_list (token_of env now cur) ∷ log) a

  after_fetch-KeepsPair :
      (cur : Current) (answer : Result ProviderError (List UserListEntry)) (log : List PullCall)
      → Agrees cur log
      → KeepsPair (after_fetch env now cur answer log)
  unfolding after_fetch
  after_fetch-KeepsPair cur answer log a = go env.refresher
    where
      go :
          (o : Option (MalAuth → ℤ → Refresh))
          → KeepsPair (elim o [
            | none ↦ conclude env now cur answer log
            | some refresh ↦
                if refused_token env now answer && not cur.is_rolled
                then after_roll
                    (fetch_again env now)
                    (refresh cur.auth now)
                    (refreshed (refresh cur.auth now) ∷ log)
                else conclude env now cur answer log
          ])
      go none = conclude-KeepsPair cur answer log a
      go (some refresh) = elim (Bool-cases (refused_token env now answer && not cur.is_rolled)) [
        | inr h ↦ rw h (conclude-KeepsPair cur answer log a)
        | inl h ↦
            let fresh : cur.is_rolled ≡ false = ground (arith, h) in
            rw h (
              after_roll-KeepsPair (fetch_again env now) (refresh cur.auth now) log (a.0 fresh).0
                (λ c agrees. fetch_again-KeepsPair c _ agrees))
      ]

  fetch_first-KeepsPair :
      (cur : Current) (log : List PullCall)
      → Agrees cur log
      → KeepsPair (fetch_first env now cur log)
  unfolding fetch_first
  fetch_first-KeepsPair cur log a = after_fetch-KeepsPair cur _ _ a

  start_pull-KeepsPair : (auth : MalAuth) → KeepsPair (start_pull env now auth)
  unfolding start_pull
  start_pull-KeepsPair auth = go env.refresher
    where
      fresh : Agrees (record { auth = auth; is_rolled = false }) []
      fresh = (λ e. (refl, refl), λ e. absurd (cc))

      go :
          (o : Option (MalAuth → ℤ → Refresh))
          → KeepsPair (elim o [
            | none ↦ fetch_first env now (record { auth = auth; is_rolled = false }) []
            | some refresh ↦
                if is_mal_expired auth now
                then after_roll
                    (fetch_first env now)
                    (refresh auth now)
                    (refreshed (refresh auth now) ∷ [])
                else fetch_first env now (record { auth = auth; is_rolled = false }) []
          ])
      go none = fetch_first-KeepsPair _ [] fresh
      go (some refresh) = elim (Bool-cases (is_mal_expired auth now)) [
        | inr h ↦ rw h (fetch_first-KeepsPair _ [] fresh)
        | inl h ↦ rw h (
            after_roll-KeepsPair (fetch_first env now) (refresh auth now) [] refl
              (λ c agrees. fetch_first-KeepsPair c _ agrees))
      ]

  -- Whatever MAL, the renewal and the store answer, a pull renews the token pair at most once; and
  -- each summary it returns carries exactly the usable pair that the renewal gave, or none.
  pub pull_mirror-KeepsPair :
      (auth : MalAuth) (enabled : Bool) → KeepsPair (pull_mirror env now auth enabled)
  unfolding pull_mirror
  pull_mirror-KeepsPair auth false = (omega arith, refl)
  pull_mirror-KeepsPair auth true = elim (Bool-cases (has_value (mal_bearer auth))) [
    | inl h ↦ rw h (start_pull-KeepsPair auth)
    | inr h ↦ rw h (omega arith, refl)
  ]
