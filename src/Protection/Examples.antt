-- ===== src/Protection/Examples.antt =====
-- A source that lost half of its files is blocked until somebody looks at it (app/protection.py).
use rclone.Planner.{
  Host, is_remote, partition, lstrip_slashes, rstrip_slashes, contains_code, starts_with_code,
}
use rclone.Protection.{
  rclone_history_key, endpoint, normalize_remote_path, bounded_state, configured_quarantine,
  is_destructive, endpoints_conflict, state_key, quarantine_endpoints, active_quarantine, Env,
  GuardConfig, GuardedPair, Measurement, measured, Baseline, Quarantine, State, Evaluation,
  guard_settings, evaluate_anomaly, active_quarantine, state_key, has_quarantine,
  unexpected_source_drop, quarantine_endpoints,
}
use rclone.Protection.Guard.{
  update_state, guard_update, guard_fresh, is_acknowledged, new_quarantine, existing, check,
  baseline, guard_update, guard_fresh, preflight_anomaly_guard, acknowledge_quarantine, run,
  new_quarantine, is_acknowledged,
}
use rclone.Protection.Stays.{preflight_anomaly_guard-stays_blocked}
use rclone.Protection.Acknowledged.{acknowledge_quarantine-frees}
use rclone.Base.{
  strip, lstrip, rstrip, lookup, upsert, ◌≡◌, refl, Bool, true, false, none, some, [], ◌∷◌, lookup,
  upsert,
}

abbrev host : Host
host = record { casefold = λ s. s; parts = λ path. some (path ∷ []) }

abbrev env : Env
env = record {
  host = host;
  lower = λ s. s;
  normpath = λ s. s;
  resolve = λ s. some s;
  digest = λ remote local direction mode. remote;
  sha256 = λ s. s;
}

abbrev defaults : GuardConfig
defaults = record {
  enabled = none;
  file_drop_percent = none;
  size_drop_percent = none;
  min_baseline_files = none;
}

abbrev docs : GuardedPair
docs = record {
  id = "p1";
  name = "docs";
  local_path = "/docs";
  remote_path = "cloud:docs";
  direction = "push";
  mode = "sync";
  guard = defaults;
}

abbrev before : Baseline
before = record {
  pair_name = "docs";
  history_key = "rclone:id:p1";
  file_count = 1000;
  bytes = 5000;
  measured_at = 1;
}

-- A drop by 35 percent is one too many.
drop_blocks :
    evaluate_anomaly (some before) (measured 650 5000 2) (guard_settings defaults docs)
    ≡ record { blocked = true; reason = unexpected_source_drop }
unfolding evaluate_anomaly guard_settings
drop_blocks = refl

smaller_drop_passes :
    (evaluate_anomaly (some before) (measured 651 5000 2) (guard_settings defaults docs)).blocked
    ≡ false
unfolding evaluate_anomaly guard_settings
smaller_drop_passes = refl

abbrev known : State
known = record { baselines = ("rclone:id:p1", before) ∷ []; quarantines = [] }

abbrev stores : State → Bool
stores s = true

abbrev half : Measurement
half = measured 500 2500 5

abbrev evaluation : Evaluation
evaluation = record { blocked = true; reason = unexpected_source_drop }

abbrev kept : Quarantine
kept = record {
  evaluation = evaluation;
  pair_name = "docs";
  history_key = "rclone:id:p1";
  detected_at = 5;
  endpoints = some (record { local_path = "/docs"; remote_path = "cloud:/docs" });
}

abbrev blocked : State
blocked = record known { quarantines = ("rclone:id:p1", kept) ∷ [] }

abbrev other : GuardedPair
other = record docs {
  id = "p2";
  name = "photos";
  local_path = "/photos";
  remote_path = "cloud:photos";
}

preflight_anomaly_guard-stays_blocked_example :
    preflight_anomaly_guard stores env docs defaults []
      (measured 1000 5000 9)
      9
      (run stores env
        (baseline docs (measured 500 2500 6) ∷ check docs defaults [] half 7 blocked blocked ∷ [])
        blocked)
      known
      known
    ≡ some (existing kept, known)
unfolding preflight_anomaly_guard acknowledge_quarantine update_state active_quarantine guard_update
    guard_fresh evaluate_anomaly state_key rclone_history_key strip lstrip rstrip lookup upsert
    quarantine_endpoints endpoint normalize_remote_path is_remote partition lstrip_slashes
    rstrip_slashes contains_code starts_with_code is_acknowledged bounded_state
    configured_quarantine is_destructive guard_settings new_quarantine endpoints_conflict
preflight_anomaly_guard-stays_blocked_example =
    preflight_anomaly_guard-stays_blocked stores env docs kept defaults defaults [] [] half
      (measured 1000 5000 9) 5 9 known known known blocked known known evaluation
      (baseline docs (measured 500 2500 6) ∷ check docs defaults [] half 7 blocked blocked ∷ [])
      refl (refl, (refl, tt))

acknowledge_quarantine-frees_example :
    (true ≡ has_quarantine env docs blocked)
    × (active_quarantine env docs (docs ∷ other ∷ []) known ≡ none)
unfolding preflight_anomaly_guard acknowledge_quarantine update_state active_quarantine guard_update
    guard_fresh evaluate_anomaly state_key rclone_history_key strip lstrip rstrip lookup upsert
    quarantine_endpoints endpoint normalize_remote_path is_remote partition lstrip_slashes
    rstrip_slashes contains_code starts_with_code is_acknowledged bounded_state
    configured_quarantine is_destructive guard_settings new_quarantine endpoints_conflict
acknowledge_quarantine-frees_example =
    acknowledge_quarantine-frees stores env docs (docs ∷ other ∷ []) blocked known true
      (((λ same. refl), tt), (((λ same. cc), tt), tt)) refl
