-- ===== src/Protection/Stays.antt =====
-- Once the guard has blocked a pair, it stays blocked (app/protection.py).
use mathlib.Core.Option.{none-ne-some}
use rclone.Protection.Blocked.{Holds, releases, run-Kept, releases}
use mathlib.Core.Path.{subst}
use rclone.Protection.{
  Env, GuardConfig, GuardedPair, Settings, Measurement, Quarantine, State, Evaluation,
  is_destructive, guard_settings, state_key, active_quarantine, bounded_state, evaluate_anomaly,
}
use rclone.Protection.Guard.{
  Call, run, Finding, existing, off, evaluated, new_quarantine, guard_fresh, guard_with,
  guard_update, changed, preflight_measured, preflight_checked, preflight_anomaly_guard,
  update_state,
}
use rclone.Base.{
  ℕ, String, ◌≡◌, refl, sym, ◌∙◌, Bool, true, false, not, ◌||◌, Option, none, some, List, arith,
  eq_refl, if◌then◌else◌, All, if-both, lookup, upsert, lookup-upsert,
}

-- The quarantine that an evaluation led to.
abbrev led_to : Finding → Option Quarantine
led_to (existing q) = none
led_to off = none
led_to (evaluated e o) = o

abbrev LedTo : Quarantine → Finding × State → Type 0
LedTo q (f, s) = led_to f ≡ some q

abbrev HoldsIn : String → Quarantine → Finding × State → Type 0
HoldsIn k q (f, s) = Holds k q s

branch-LedTo :
    (key : String) (e : Evaluation) (new q : Quarantine) (s t : State) (b : Bool)
    → Holds key new s
    → LedTo q (if b then (evaluated e (some new), s) else (evaluated e none, t))
    → HoldsIn key q (if b then (evaluated e (some new), s) else (evaluated e none, t))
branch-LedTo key e new q s t true kept led = kept ∙ led
branch-LedTo key e new q s t false kept led = absurd (none-ne-some q led)

module _ (env : Env) (p : GuardedPair) where
  guard_fresh-LedTo :
      (settings : Settings) (m : Measurement) (now : ℕ) (s : State) (q : Quarantine)
      → led_to (guard_fresh env p settings m now s).0 ≡ some q
      → Holds (state_key env p) q (guard_fresh env p settings m now s).1
  unfolding guard_fresh bounded_state
  guard_fresh-LedTo settings m now s q led =
      let key = state_key env p in
      let e = evaluate_anomaly (lookup key s.baselines) m settings in
      let new = new_quarantine env p e now in
      let held = bounded_state (record s { quarantines = upsert key new s.quarantines }) in
      let kept : Holds key new held =
        rw (lookup-upsert key key new s.quarantines, eq_refl key) refl in
      branch-LedTo key e new q held (bounded_state s) e.blocked kept led

  guard_with-LedTo :
      (settings : Settings) (m : Measurement) (now : ℕ) (s : State) (q : Quarantine)
      (o : Option Quarantine)
      → led_to (guard_with env p settings m now s o).0 ≡ some q
      → Holds (state_key env p) q (guard_with env p settings m now s o).1
  unfolding guard_with
  guard_with-LedTo settings m now s q (some r) led = absurd (none-ne-some q led)
  guard_with-LedTo settings m now s q none led = guard_fresh-LedTo settings m now s q led

  active_quarantine-own :
      (configured : List GuardedPair) (s : State) (q : Quarantine)
      → is_destructive env p ≡ true
      → Holds (state_key env p) q s
      → active_quarantine env p configured s ≡ some q
  unfolding active_quarantine
  active_quarantine-own configured s q destructive h = rw (destructive, h) refl

module _ (stores : State → Bool) where
  -- What a finding and its table say, when a check has blocked the pair just now.
  abbrev Blocks : Env → GuardedPair → Quarantine → Option (Finding × State) → Type 0
  Blocks env p q none = ⊥
  Blocks env p q (some (f, t)) = led_to f ≡ some q

  abbrev Keeps : Env → GuardedPair → Quarantine → Option (Finding × State) → Type 0
  Keeps env p q none = Unit
  Keeps env p q (some (f, t)) = (is_destructive env p ≡ true) × Holds (state_key env p) q t

  abbrev pub Stored : State → Option State → Type 0
  Stored s none = Unit
  Stored s (some t) = t ≡ s

  pub update_state-Stored : (f : State → State) (s : State) → Stored (f s) (update_state stores f s)
  unfolding update_state
  update_state-Stored f s = if-both (Stored (f s)) (stores (f s)) (some (f s)) none refl tt

  changed-Keeps :
      (env : Env) (p : GuardedPair) (q : Quarantine) (f : Finding) (s : State) (o : Option State)
      → Stored s o
      → is_destructive env p ≡ true
      → (led_to f ≡ some q → Holds (state_key env p) q s)
      → Blocks env p q (changed f o)
      → Keeps env p q (changed f o)
  changed-Keeps env p q f s none stored destructive held led = tt
  changed-Keeps env p q f s (some t) stored destructive held led =
      (destructive, rw stored (held led))

  chosen-Keeps :
      (env : Env) (p : GuardedPair) (q : Quarantine) (t : State) (b : Bool)
      (r : Option (Finding × State))
      → (b ≡ false → Blocks env p q r → Keeps env p q r)
      → Blocks env p q (if b then some (off, t) else r)
      → Keeps env p q (if b then some (off, t) else r)
  chosen-Keeps env p q t true r keeps led = absurd (none-ne-some q led)
  chosen-Keeps env p q t false r keeps led = keeps refl led

  preflight_measured-Keeps :
      (env : Env) (p : GuardedPair) (settings : Settings) (m : Measurement) (now : ℕ) (t : State)
      (q : Quarantine) (o : Option Quarantine)
      → is_destructive env p ≡ true
      → Blocks env p q (preflight_measured stores env p settings m now t o)
      → Keeps env p q (preflight_measured stores env p settings m now t o)
  unfolding preflight_measured guard_update
  preflight_measured-Keeps env p settings m now t q (some r) on led = absurd (none-ne-some q led)
  preflight_measured-Keeps env p settings m now t q none on led =
      let update = guard_update env p settings m now in
      changed-Keeps env p q (update t).0 (update t).1 (update_state stores (λ s. (update s).1) t)
        (update_state-Stored (λ s. (update s).1) t) on
        (guard_with-LedTo env p settings m now t q (lookup (state_key env p) t.quarantines)) led

  preflight_checked-Keeps :
      (env : Env) (p : GuardedPair) (backup : GuardConfig) (m : Measurement) (now : ℕ)
      (loaded t : State) (q : Quarantine) (o : Option Quarantine)
      → Blocks env p q (preflight_checked stores env p backup m now loaded t o)
      → Keeps env p q (preflight_checked stores env p backup m now loaded t o)
  unfolding preflight_checked
  preflight_checked-Keeps env p backup m now loaded t q (some r) led = absurd (none-ne-some q led)
  preflight_checked-Keeps env p backup m now loaded t q none led =
      let settings = guard_settings backup p in
      let o = lookup (state_key env p) loaded.quarantines in
      chosen-Keeps env p q t (not settings.enabled || not (is_destructive env p))
        (preflight_measured stores env p settings m now t o)
        (λ on. preflight_measured-Keeps env p settings m now t q o (ground (arith, on))) led

  -- Once a check has blocked a pair because its source shrank, every later check of the same pair
  -- finds the same quarantine and is blocked, whatever is measured, checked, recorded or configured
  -- meanwhile, until the quarantine is acknowledged for a pair with its key or with overlapping paths.
  pub preflight_anomaly_guard-stays_blocked :
      (env : Env) (p : GuardedPair) (q : Quarantine) (backup later_backup : GuardConfig)
      (configured later_configured : List GuardedPair) (m later_m : Measurement) (now later : ℕ)
      (seen loaded t t' later_loaded u : State) (e : Evaluation) (cs : List Call)
      → preflight_anomaly_guard stores env p backup configured m now seen loaded t
        ≡ some (evaluated e (some q), t')
      → All (λ c. releases env (state_key env p) q c ≡ false) cs
      → preflight_anomaly_guard stores env p later_backup later_configured later_m later
          (run stores env cs t')
          later_loaded
          u
        ≡ some (existing q, u)
  unfolding preflight_anomaly_guard preflight_checked
  preflight_anomaly_guard-stays_blocked env p q backup later_backup configured later_configured m
        later_m now later seen loaded t t' later_loaded u e cs blocked spared =
      let o = active_quarantine env p configured seen in
      let kept = subst (Keeps env p q) blocked (
        preflight_checked-Keeps env p backup m now loaded t q o
          (subst (Blocks env p q) (sym blocked) refl)) in
      let held = run-Kept stores env (state_key env p) q cs t' spared kept.1 in
      rw (active_quarantine-own env p later_configured (run stores env cs t') q kept.0 held) refl
