-- ===== src/Protection/Blocked.antt =====
-- A quarantine blocks its pair until it is acknowledged (app/protection.py).
use mathlib.Core.Path.{subst}
use rclone.Protection.{
  Env, GuardConfig, GuardedPair, Settings, Measurement, failed, measured, Quarantine, State,
  is_destructive, guard_settings, state_key, active_quarantine, bounded_state, evaluate_anomaly,
}
use rclone.Protection.Guard.{
  Call, check, baseline, acknowledge, found_or, removed_or, acknowledged, step, run, Finding, off,
  evaluated, new_quarantine, guard_fresh, guard_with, guard_update, baseline_update,
  is_acknowledged, acknowledge_update, changed, preflight_measured, preflight_checked,
  preflight_anomaly_guard, state_or, record_anomaly_baseline, acknowledge_quarantine, update_state,
}
use rclone.Base.{
  ℕ, String, ◌≡◌, refl, sym, ap, inl, inr, Bool, true, false, not, ◌||◌, Option, none, some, List,
  [], ◌∷◌, arith, str_eq, eq_iff, Bool-cases, All, if-both, Table, lookup, upsert, lookup-upsert,
  drop_where, any_where,
}

-- The quarantine is kept under the key.
abbrev pub Holds : String → Quarantine → State → Type 0
Holds k q s = lookup k s.quarantines ≡ some q

-- What a call does with the state, where it comes to write it.
abbrev pub update_of : Env → Call → State → State
update_of env (check p backup configured m now seen loaded) s =
    (guard_update env p (guard_settings backup p) m now s).1
update_of env (baseline p m) s = baseline_update env p m s
update_of env (acknowledge p) s = acknowledge_update env p s

-- An acknowledgement that removes the quarantine.
abbrev pub releases : Env → String → Quarantine → Call → Bool
releases env k q (acknowledge p) = is_acknowledged env p (k, q)
releases env k q _ = false

lookup-drop_where :
    (gone : String × Quarantine → Bool) (k : String) (q : Quarantine) (t : Table Quarantine)
    → gone (k, q) ≡ false
    → lookup k t ≡ some q
    → lookup k (drop_where gone t) ≡ some q
unfolding lookup
lookup-drop_where gone k q [] spared h = ground (arith, h)
lookup-drop_where gone k q ((j, r) ∷ t) spared h =
    ground (arith, spared, h, eq_iff j k, lookup-drop_where gone k q t spared)

module _ (env : Env) (k : String) (q : Quarantine) where
  other_key :
      (key j : String) (s : State)
      → str_eq key j ≡ true
      → lookup key s.quarantines ≡ none
      → lookup j s.quarantines ≡ some q
      → ⊥
  other_key key j s same free h =
      let p : key ≡ j = ground (arith, same, eq_iff key j) in
      cc (ap (λ i. lookup i s.quarantines) p, free, h)

  upsert-keeps :
      (key : String) (new : Quarantine) (s : State)
      → lookup key s.quarantines ≡ none
      → Holds k q s
      → lookup k (upsert key new s.quarantines) ≡ some q
  upsert-keeps key new s free h = elim (Bool-cases (str_eq key k)) [
    | inl same ↦ absurd (other_key key k s same free h)
    | inr unlike ↦ rw (lookup-upsert key k new s.quarantines, unlike) h
  ]

  guard_fresh-Holds :
      (p : GuardedPair) (settings : Settings) (m : Measurement) (now : ℕ) (s : State)
      → lookup (state_key env p) s.quarantines ≡ none
      → Holds k q s
      → Holds k q (guard_fresh env p settings m now s).1
  unfolding guard_fresh bounded_state
  guard_fresh-Holds p settings m now s free h =
      let key = state_key env p in
      let e = evaluate_anomaly (lookup key s.baselines) m settings in
      let new = new_quarantine env p e now in
      let kept : lookup k (upsert key new s.quarantines) ≡ some q = upsert-keeps key new s free h in
      if-both {A = Finding × State} (λ r. Holds k q r.1) e.blocked
        (
          evaluated e (some new),
          bounded_state (record s { quarantines = upsert key new s.quarantines }),
        )
        (evaluated e none, bounded_state s) kept h

  guard_with-Holds :
      (p : GuardedPair) (settings : Settings) (m : Measurement) (now : ℕ) (s : State)
      (o : Option Quarantine)
      → lookup (state_key env p) s.quarantines ≡ o
      → Holds k q s
      → Holds k q (guard_with env p settings m now s o).1
  unfolding guard_with
  guard_with-Holds p settings m now s (some r) found h = h
  guard_with-Holds p settings m now s none found h = guard_fresh-Holds p settings m now s found h

  guard_update-Holds :
      (p : GuardedPair) (settings : Settings) (m : Measurement) (now : ℕ) (s : State)
      → Holds k q s
      → Holds k q (guard_update env p settings m now s).1
  unfolding guard_update
  guard_update-Holds p settings m now s h =
      guard_with-Holds p settings m now s (lookup (state_key env p) s.quarantines) refl h

  baseline_update-Holds :
      (p : GuardedPair) (m : Measurement) (s : State)
      → Holds k q s
      → Holds k q (baseline_update env p m s)
  unfolding baseline_update bounded_state
  baseline_update-Holds p (failed cause) s h = h
  baseline_update-Holds p (measured n b at) s h = h

  acknowledge_update-Holds :
      (p : GuardedPair) (s : State)
      → is_acknowledged env p (k, q) ≡ false
      → Holds k q s
      → Holds k q (acknowledge_update env p s)
  unfolding acknowledge_update bounded_state
  acknowledge_update-Holds p s spared h =
      lookup-drop_where (is_acknowledged env p) k q s.quarantines spared h

module _ (stores : State → Bool) where
  -- A predicate of the state that an update keeps holds of what the table has afterwards.
  update-keeps :
      (P : State → Type 0) (f : State → State) (s : State)
      → ((r : State) → P r → P (f r))
      → P s
      → P (state_or s (update_state stores f s))
  unfolding update_state
  update-keeps P f s keeps h =
      if-both (λ o. P (state_or s o)) (stores (f s)) (some (f s)) none (keeps s h) h

  changed-table :
      (f : Finding) (t : State) (o : Option State) → found_or t (changed f o) ≡ state_or t o
  changed-table f t none = refl
  changed-table f t (some r) = refl

  acknowledged-table :
      (b : Bool) (t : State) (o : Option State) → removed_or t (acknowledged b o) ≡ state_or t o
  acknowledged-table b t none = refl
  acknowledged-table b t (some r) = refl

  module _ (P : State → Type 0) (env : Env) where
    preflight_measured-keeps :
        (p : GuardedPair) (settings : Settings) (m : Measurement) (now : ℕ) (t : State)
        (o : Option Quarantine)
        → ((s : State) → P s → P (guard_update env p settings m now s).1)
        → P t
        → P (found_or t (preflight_measured stores env p settings m now t o))
    unfolding preflight_measured
    preflight_measured-keeps p settings m now t (some r) keeps h = h
    preflight_measured-keeps p settings m now t none keeps h =
        let update = guard_update env p settings m now in
        let o = update_state stores (λ s. (update s).1) t in
        subst P (sym (changed-table (update t).0 t o))
          (update-keeps P (λ s. (update s).1) t keeps h)

    preflight_checked-keeps :
        (p : GuardedPair) (backup : GuardConfig) (m : Measurement) (now : ℕ) (loaded t : State)
        (o : Option Quarantine)
        → ((s : State) → P s → P (guard_update env p (guard_settings backup p) m now s).1)
        → P t
        → P (found_or t (preflight_checked stores env p backup m now loaded t o))
    unfolding preflight_checked
    preflight_checked-keeps p backup m now loaded t (some r) keeps h = h
    preflight_checked-keeps p backup m now loaded t none keeps h =
        let settings = guard_settings backup p in
        let o = lookup (state_key env p) loaded.quarantines in
        if-both (λ r. P (found_or t r)) (not settings.enabled || not (is_destructive env p))
          (some (off, t)) (preflight_measured stores env p settings m now t o) h
          (preflight_measured-keeps p settings m now t o keeps h)

    -- What every update of a call keeps is kept by the call, also where it raises.
    pub step-keeps :
        (c : Call) (t : State)
        → ((s : State) → P s → P (update_of env c s))
        → P t
        → P (step stores env c t)
    unfolding preflight_anomaly_guard record_anomaly_baseline acknowledge_quarantine
    step-keeps (check p backup configured m now seen loaded) t keeps h =
        preflight_checked-keeps p backup m now loaded t (active_quarantine env p configured seen)
          keeps h
    step-keeps (baseline p (failed cause)) t keeps h = h
    step-keeps (baseline p (measured n b at)) t keeps h =
        update-keeps P (baseline_update env p (measured n b at)) t keeps h
    step-keeps (acknowledge p) t keeps h =
        let removed = any_where (is_acknowledged env p) t.quarantines in
        let o = update_state stores (acknowledge_update env p) t in
        subst P (sym (acknowledged-table removed t o))
          (update-keeps P (acknowledge_update env p) t keeps h)

  module _ (env : Env) (k : String) (q : Quarantine) where
    abbrev pub Kept : State → Type 0
    Kept t = Holds k q t

    update_of-Holds :
        (c : Call) (s : State)
        → releases env k q c ≡ false
        → Holds k q s
        → Holds k q (update_of env c s)
    update_of-Holds (check p backup configured m now seen loaded) s spared h =
        guard_update-Holds env k q p (guard_settings backup p) m now s h
    update_of-Holds (baseline p m) s spared h = baseline_update-Holds env k q p m s h
    update_of-Holds (acknowledge p) s spared h = acknowledge_update-Holds env k q p s spared h

    pub run-Kept :
        (cs : List Call) (t : State)
        → All (λ c. releases env k q c ≡ false) cs
        → Kept t
        → Kept (run stores env cs t)
    run-Kept [] t spared h = h
    run-Kept (c ∷ cs) t spared h =
        run-Kept cs (step stores env c t) spared.1
          (step-keeps (Holds k q) env c t (λ s. update_of-Holds c s spared.0) h)
