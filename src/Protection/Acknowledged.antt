-- ===== src/Protection/Acknowledged.antt =====
-- What an acknowledgement does, and how many baselines are kept (app/protection.py).
use rclone.Protection.Stays.{Stored, update_state-Stored}
use rclone.Protection.Blocked.{step-keeps, update_of, update_of}
use mathlib.Core.Path.{subst}
use rclone.Protection.{
  rclone_history_key, Env, GuardedPair, Settings, Measurement, failed, measured, Quarantine, State,
  state_key, quarantine_endpoints, endpoints_conflict, has_quarantine, active_quarantine,
  configured_quarantine, bounded_state, Baseline, guard_settings, evaluate_anomaly,
}
use rclone.Protection.Guard.{
  Finding, evaluated, Call, check, baseline, acknowledge, acknowledged, step, run, guard_update,
  guard_with, guard_fresh, new_quarantine, baseline_update, is_acknowledged, acknowledge_update,
  acknowledge_quarantine, update_state,
}
use rclone.Base.{
  ℕ, ◌≤◌, String, ◌≡◌, refl, sym, ◌∙◌, Bool, false, ◌||◌, Option, none, some, List, [], ◌∷◌, arith,
  str_eq, ltb, is_some, length, if-both, Table, lookup, upsert, drop_where, any_where, find_where,
  All, Bool-cases, Option-cases, inl, inr, true, length-take-le, sort_by,
}

any_where-lookup :
    (k : String) (c : String × Quarantine → Bool) (t : Table Quarantine)
    → any_where (λ row. str_eq row.0 k || c row) t ≡ (is_some (lookup k t) || any_where c t)
unfolding lookup
any_where-lookup k c [] = refl
any_where-lookup k c ((j, q) ∷ t) = ground (arith, any_where-lookup k c t)

any_where-drop_where :
    (f : String × Quarantine → Bool) (t : Table Quarantine) → any_where f (drop_where f t) ≡ false
any_where-drop_where f [] = refl
any_where-drop_where f (row ∷ t) = ground (arith, any_where-drop_where f t)

-- What is acknowledged is what binds the pair.
is_acknowledged-has_quarantine :
    (env : Env) (p : GuardedPair) (s : State)
    → any_where (is_acknowledged env p) s.quarantines ≡ has_quarantine env p s
unfolding is_acknowledged has_quarantine
is_acknowledged-has_quarantine env p s =
    any_where-lookup (state_key env p)
      (λ row. endpoints_conflict env (quarantine_endpoints env p) row.1.endpoints) s.quarantines

bounded_state-within : (s : State) → length (bounded_state s).baselines ≤ 256
unfolding bounded_state
bounded_state-within s =
    let sorted = sort_by (λ a b. ltb b.1.measured_at a.1.measured_at) s.baselines in
    ground (arith, length-take-le 256 sorted)

-- The quarantines under the key of a pair were made for the paths that it has.
abbrev pub HasOwnPaths : Env → Table Quarantine → GuardedPair → Type 0
HasOwnPaths env t c =
    All
      (λ row.
        str_eq row.0 (state_key env c) ≡ true → row.1.endpoints ≡ some (quarantine_endpoints env c))
      t

find_where-none :
    (f : String × Quarantine → Bool) (t : Table Quarantine)
    → any_where f t ≡ false
    → find_where f t ≡ none
find_where-none f [] h = refl
find_where-none f (row ∷ t) h = ground (arith, h, find_where-none f t)

module _ (env : Env) (p : GuardedPair) where
  lookup-acknowledged :
      (c : GuardedPair) (t : Table Quarantine)
      → endpoints_conflict env (quarantine_endpoints env p) (some (quarantine_endpoints env c))
        ≡ true
      → HasOwnPaths env t c
      → lookup (state_key env c) (drop_where (is_acknowledged env p) t) ≡ none
  unfolding lookup is_acknowledged
  lookup-acknowledged c [] overlap own = refl
  lookup-acknowledged c ((j, q) ∷ t) overlap own =
      let rest = lookup-acknowledged c t overlap own.1 in
      elim (Bool-cases (str_eq j (state_key env c))) [
        | inl here ↦
            let gone : is_acknowledged env p (j, q) ≡ true =
              unfold is_acknowledged in rw (own.0 here, overlap) (ground arith) in
            rw gone rest
        | inr other ↦ ground (arith, other, rest)
      ]

  -- No quarantine of a configured pair is left that binds the paths.
  configured_quarantine-acknowledged :
      (configured : List GuardedPair) (t : Table Quarantine)
      → All (HasOwnPaths env t) configured
      → configured_quarantine env
          (quarantine_endpoints env p)
          configured
          (drop_where (is_acknowledged env p) t)
        ≡ none
  unfolding configured_quarantine
  configured_quarantine-acknowledged [] t own = refl
  configured_quarantine-acknowledged (c ∷ configured) t own =
      let rest = configured_quarantine-acknowledged configured t own.1 in
      let binds =
        endpoints_conflict env (quarantine_endpoints env p) (some (quarantine_endpoints env c)) in
      elim (Bool-cases binds) [
        | inl overlap ↦ rw (lookup-acknowledged c t overlap own.0, configured_quarantine) rest
        | inr apart ↦
            elim (Option-cases (lookup (state_key env c) (drop_where (is_acknowledged env p) t))) [
              | inl absent ↦ rw (absent, configured_quarantine) rest
              | inr (q, there) ↦ rw (there, apart, configured_quarantine) rest
            ]
      ]

  active_quarantine-free :
      (configured : List GuardedPair) (s : State)
      → has_quarantine env p s ≡ false
      → configured_quarantine env (quarantine_endpoints env p) configured s.quarantines ≡ none
      → active_quarantine env p configured s ≡ none
  unfolding active_quarantine has_quarantine
  active_quarantine-free configured s free unbound =
      let overlaps = λ (row : String × Quarantine).
        endpoints_conflict env (quarantine_endpoints env p) row.1.endpoints in
      let none_overlaps : find_where overlaps s.quarantines ≡ none =
        find_where-none overlaps s.quarantines (ground (arith, free)) in
      elim (Option-cases (lookup (state_key env p) s.quarantines)) [
        | inl absent ↦ rw (absent, none_overlaps, unbound) (ground arith)
        | inr (q, there) ↦ absurd (ground (arith, free, there))
      ]

  acknowledge_update-lifts : (s : State) → has_quarantine env p (acknowledge_update env p s) ≡ false
  unfolding acknowledge_update bounded_state
  acknowledge_update-lifts s =
      sym (is_acknowledged-has_quarantine env p (acknowledge_update env p s))
      ∙ any_where-drop_where (is_acknowledged env p) s.quarantines

  acknowledge_update-frees :
      (configured : List GuardedPair) (s : State)
      → All (HasOwnPaths env s.quarantines) configured
      → active_quarantine env p configured (acknowledge_update env p s) ≡ none
  unfolding acknowledge_update bounded_state
  acknowledge_update-frees configured s own =
      active_quarantine-free configured (acknowledge_update env p s) (acknowledge_update-lifts s)
        (configured_quarantine-acknowledged configured s.quarantines own)

  abbrev IsFreed : List GuardedPair → State → Option (Bool × State) → Type 0
  IsFreed configured t none = Unit
  IsFreed configured t (some (removed, t')) =
      (removed ≡ has_quarantine env p t) × (active_quarantine env p configured t' ≡ none)

  module _ (stores : State → Bool) where
    acknowledged-IsFreed :
        (configured : List GuardedPair) (t : State) (b : Bool) (s : State) (o : Option State)
        → Stored stores s o
        → b ≡ has_quarantine env p t
        → active_quarantine env p configured s ≡ none
        → IsFreed configured t (acknowledged b o)
    acknowledged-IsFreed configured t b s none stored reply freed = tt
    acknowledged-IsFreed configured t b s (some u) stored reply freed = (reply, rw stored freed)

-- An acknowledgement that is stored replies whether the pair was bound by a quarantine of its own or
-- of overlapping paths, and afterwards nothing blocks the pair, not the quarantine of a configured
-- pair either, if those were made for the paths that their pairs have.
pub acknowledge_quarantine-frees :
    (stores : State → Bool) (env : Env) (p : GuardedPair) (configured : List GuardedPair)
    (t t' : State) (removed : Bool)
    → All (HasOwnPaths env t.quarantines) configured
    → acknowledge_quarantine stores env p t ≡ some (removed, t')
    → (removed ≡ has_quarantine env p t) × (active_quarantine env p configured t' ≡ none)
unfolding acknowledge_quarantine
acknowledge_quarantine-frees stores env p configured t t' removed own stored =
    subst (IsFreed env p configured t) stored (
      acknowledged-IsFreed env p stores configured t
        (any_where (is_acknowledged env p) t.quarantines) (acknowledge_update env p t)
        (update_state stores (acknowledge_update env p) t)
        (update_state-Stored stores (acknowledge_update env p) t)
        (is_acknowledged-has_quarantine env p t) (acknowledge_update-frees env p configured t own))

guard_with-within :
    (env : Env) (p : GuardedPair) (settings : Settings) (m : Measurement) (now : ℕ) (s : State)
    (o : Option Quarantine)
    → length s.baselines ≤ 256
    → length (guard_with env p settings m now s o).1.baselines ≤ 256
unfolding guard_with guard_fresh
guard_with-within env p settings m now s (some q) h = h
guard_with-within env p settings m now s none h =
    let key = state_key env p in
    let e = evaluate_anomaly (lookup key s.baselines) m settings in
    let new = new_quarantine env p e now in
    let kept = record s { quarantines = upsert key new s.quarantines } in
    if-both {A = Finding × State} (λ r. length r.1.baselines ≤ 256) e.blocked
      (evaluated e (some new), bounded_state kept) (evaluated e none, bounded_state s)
      (bounded_state-within kept) (bounded_state-within s)

update_of-within :
    (env : Env) (c : Call) (s : State)
    → length s.baselines ≤ 256
    → length (update_of env c s).baselines ≤ 256
unfolding guard_update baseline_update acknowledge_update
update_of-within env (check p backup configured m now seen loaded) s h =
    guard_with-within env p (guard_settings backup p) m now s
      (lookup (state_key env p) s.quarantines) h
update_of-within env (baseline p (failed cause)) s h = h
update_of-within env (baseline p (measured n b at)) s h =
    let new : Baseline = record {
      pair_name = p.name;
      history_key = rclone_history_key env p;
      file_count = n;
      bytes = b;
      measured_at = at;
    } in
    bounded_state-within (record s { baselines = upsert (state_key env p) new s.baselines })
update_of-within env (acknowledge p) s h =
    bounded_state-within
      (record s { quarantines = drop_where (is_acknowledged env p) s.quarantines })

-- After any calls at most 256 baselines are kept, if that held before.
pub run-within :
    (stores : State → Bool) (env : Env) (cs : List Call) (t : State)
    → length t.baselines ≤ 256
    → length (run stores env cs t).baselines ≤ 256
run-within stores env [] t h = h
run-within stores env (c ∷ cs) t h =
    run-within stores env cs (step stores env c t)
      (step-keeps stores (λ s. length s.baselines ≤ 256) env c t (update_of-within env c) h)
