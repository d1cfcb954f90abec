-- ===== src/Protection/Guard.antt =====
-- What is done with the guard's state (`preflight_anomaly_guard`, `record_anomaly_baseline`,
-- `acknowledge_quarantine` of app/protection.py), and any sequence of these calls.
use rclone.Protection.{
  Env, GuardConfig, GuardedPair, Settings, Measurement, failed, measured, Baseline, Quarantine,
  State, Evaluation, is_destructive, guard_settings, state_key, rclone_history_key,
  quarantine_endpoints, endpoints_conflict, active_quarantine, bounded_state, evaluate_anomaly,
}
use rclone.Base.{
  ℕ, String, Bool, true, false, not, ◌||◌, Option, none, some, List, [], ◌∷◌, str_eq, if◌then◌else◌,
  lookup, upsert, drop_where, any_where,
}

-- What the guard finds: a quarantine that was there, that it is switched off, or an evaluation with
-- the quarantine that it led to.
pub data Finding : Type 0 where
  existing : Quarantine → Finding
  off : Finding
  evaluated : Evaluation → Option Quarantine → Finding

abbrev pub is_blocked : Finding → Bool
is_blocked (existing q) = true
is_blocked off = false
is_blocked (evaluated e q) = e.blocked

unfoldable pub new_quarantine : Env → GuardedPair → Evaluation → ℕ → Quarantine
new_quarantine env p e now = record {
  evaluation = e;
  pair_name = p.name;
  history_key = rclone_history_key env p;
  detected_at = now;
  endpoints = some (quarantine_endpoints env p);
}

-- The function `update` of `preflight_anomaly_guard`, once a quarantine was looked for.
unfoldable pub guard_fresh :
    Env → GuardedPair → Settings → Measurement → ℕ → State → Finding × State
unfolding evaluate_anomaly new_quarantine bounded_state state_key
guard_fresh env p settings measurement now s =
    let key = state_key env p in
    let e = evaluate_anomaly (lookup key s.baselines) measurement settings in
    let q = new_quarantine env p e now in
    if e.blocked
    then (
      evaluated e (some q),
      bounded_state (record s { quarantines = upsert key q s.quarantines }),
    )
    else (evaluated e none, bounded_state s)

unfoldable pub guard_with :
    Env → GuardedPair → Settings → Measurement → ℕ → State → Option Quarantine → Finding × State
unfolding guard_fresh
guard_with env p settings measurement now s (some q) = (existing q, s)
guard_with env p settings measurement now s none = guard_fresh env p settings measurement now s

unfoldable pub guard_update :
    Env → GuardedPair → Settings → Measurement → ℕ → State → Finding × State
unfolding guard_with
guard_update env p settings measurement now s =
    guard_with env p settings measurement now s (lookup (state_key env p) s.quarantines)

-- A measurement that failed is not recorded.
unfoldable pub baseline_update : Env → GuardedPair → Measurement → State → State
unfolding bounded_state
baseline_update env p (failed cause) s = s
baseline_update env p (measured file_count bytes at) s =
    let baseline : Baseline = record {
      pair_name = p.name;
      history_key = rclone_history_key env p;
      file_count = file_count;
      bytes = bytes;
      measured_at = at;
    } in
    bounded_state (record s { baselines = upsert (state_key env p) baseline s.baselines })

-- The quarantines that an acknowledgement of the pair removes.
unfoldable pub is_acknowledged : Env → GuardedPair → String × Quarantine → Bool
unfolding state_key endpoints_conflict
is_acknowledged env p row =
    str_eq row.0 (state_key env p)
    || endpoints_conflict env (quarantine_endpoints env p) row.1.endpoints

unfoldable pub acknowledge_update : Env → GuardedPair → State → State
unfolding is_acknowledged bounded_state
acknowledge_update env p s =
    bounded_state (record s { quarantines = drop_where (is_acknowledged env p) s.quarantines })

-- A call with its arguments, its time, and the two states that a guard reads before it measures.
pub data Call : Type 0 where
  check : GuardedPair → GuardConfig → List GuardedPair → Measurement → ℕ → State → State → Call
  baseline : GuardedPair → Measurement → Call
  acknowledge : GuardedPair → Call

-- What is left of the state when a call ends, also where it raises.
abbrev pub state_or : State → Option State → State
state_or s none = s
state_or s (some s') = s'

abbrev pub found_or : State → Option (Finding × State) → State
found_or s none = s
found_or s (some (f, s')) = s'

abbrev pub removed_or : State → Option (Bool × State) → State
removed_or s none = s
removed_or s (some (b, s')) = s'

abbrev pub changed : Finding → Option State → Option (Finding × State)
changed f none = none
changed f (some s) = some (f, s)

abbrev pub acknowledged : Bool → Option State → Option (Bool × State)
acknowledged removed none = none
acknowledged removed (some s) = some (removed, s)

-- `stores` says of which states `runtime_update` takes the text; it raises for the others.
module _ (stores : State → Bool) where
  unfoldable pub update_state : (State → State) → State → Option State
  update_state f s = if stores (f s) then some (f s) else none

  -- `loaded` is the state before the measurement, and `s` the one when the measurement is there.
  unfoldable pub preflight_measured :
      Env
      → GuardedPair
      → Settings
      → Measurement
      → ℕ
      → State
      → Option Quarantine
      → Option (Finding × State)
  unfolding guard_update update_state
  preflight_measured env p settings measurement now s (some q) = some (existing q, s)
  preflight_measured env p settings measurement now s none =
      let update = guard_update env p settings measurement now in
      changed (update s).0 (update_state (λ r. (update r).1) s)

  unfoldable pub preflight_checked :
      Env
      → GuardedPair
      → GuardConfig
      → Measurement
      → ℕ
      → State
      → State
      → Option Quarantine
      → Option (Finding × State)
  unfolding preflight_measured is_destructive guard_settings state_key
  preflight_checked env p backup measurement now loaded s (some q) = some (existing q, s)
  preflight_checked env p backup measurement now loaded s none =
      let settings = guard_settings backup p in
      if not settings.enabled || not (is_destructive env p)
      then some (off, s)
      else preflight_measured env p settings measurement now s
          (lookup (state_key env p) loaded.quarantines)

  -- `seen` is the state when the guard begins.
  unfoldable pub preflight_anomaly_guard :
      Env
      → GuardedPair
      → GuardConfig
      → List GuardedPair
      → Measurement
      → ℕ
      → State
      → State
      → State
      → Option (Finding × State)
  unfolding preflight_checked active_quarantine
  preflight_anomaly_guard env p backup configured measurement now seen loaded s =
      preflight_checked env p backup measurement now loaded s
        (active_quarantine env p configured seen)

  unfoldable pub record_anomaly_baseline : Env → GuardedPair → Measurement → State → State
  unfolding baseline_update update_state
  record_anomaly_baseline env p (failed cause) s = s
  record_anomaly_baseline env p measurement s =
      state_or s (update_state (baseline_update env p measurement) s)

  unfoldable pub acknowledge_quarantine : Env → GuardedPair → State → Option (Bool × State)
  unfolding acknowledge_update update_state
  acknowledge_quarantine env p s =
      let removed = any_where (is_acknowledged env p) s.quarantines in
      acknowledged removed (update_state (acknowledge_update env p) s)

  abbrev pub step : Env → Call → State → State
  step env (check p backup configured measurement now seen loaded) s =
      found_or s (preflight_anomaly_guard env p backup configured measurement now seen loaded s)
  step env (baseline p measurement) s = record_anomaly_baseline env p measurement s
  step env (acknowledge p) s = removed_or s (acknowledge_quarantine env p s)

  abbrev pub run : Env → List Call → State → State
  run env [] s = s
  run env (c ∷ cs) s = run env cs (step env c s)
