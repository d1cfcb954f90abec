-- ===== src/Protection.antt =====
-- The guard against unexpected deletions (app/protection.py): which syncs are destructive, when a
-- source has shrunk too much, and where its baselines and quarantines are kept.
-- The file system, hashes and Python's casefold, lower and normpath are the argument `Env`.
pub mod Guard
pub mod Blocked
pub mod Stays
pub mod Acknowledged
mod Examples
use Prim.Native.String.{◌++◌ as append_text}
use rclone.Planner.{
  Host, Pair, is_remote, contains_code, partition, lstrip_slashes, rstrip_slashes, pairs_conflict,
}
use rclone.Base.{
  ℕ, zero, suc, ◌+◌, ◌-◌, ◌*◌, ◌/◌, ◌%◌, ◌^◌, ◌≤◌, ◌<◌, min, max, String, ◌≡◌, refl, sym, ap, ◌∙◌,
  ◌≢◌, ◌↔◌, ◌⊎◌, inl, inr, Bool, true, false, not, ◌&&◌, ◌||◌, Option, none, some, List, [], ◌∷◌,
  ◌++◌, map, arith, str_eq, eq_iff, eq_refl, ltb, leb, ◌==◌, if◌then◌else◌, clamp, is_some,
  Bool-cases, Option-cases, length, All, Table, lookup, strip, or_else, is_empty, any_where, take,
  sort_by, find_where,
}

-- `resolve` is `str(Path(value).resolve())`, and `none` where that raises; `digest` the identity of
-- a pair without an id; `sha256` the first 32 digits of a hash.
pub record Env : Type 0 where
  pub host : Host
  pub lower : String → String
  pub normpath : String → String
  pub resolve : String → Option String
  pub digest : String → String → String → String → String
  pub sha256 : String → String

-- `anomaly_guard` of a pair or of the backup; a limit is in hundredths of a percent.
pub record GuardConfig : Type 0 where
  pub enabled : Option Bool
  pub file_drop_percent : Option ℕ
  pub size_drop_percent : Option ℕ
  pub min_baseline_files : Option ℕ

-- A pair of the configuration.
pub record GuardedPair : Type 0 where
  pub id : String
  pub name : String
  pub local_path : String
  pub remote_path : String
  pub direction : String
  pub mode : String
  pub guard : GuardConfig

pub record Settings : Type 0 where
  pub enabled : Bool
  pub file_drop_percent : ℕ
  pub size_drop_percent : ℕ
  pub min_baseline_files : ℕ

pub record Endpoints : Type 0 where
  pub local_path : String
  pub remote_path : String

-- What `measure_path` gives, or its error.
pub data Measurement : Type 0 where
  failed : String → Measurement
  measured : ℕ → ℕ → ℕ → Measurement

pub record Baseline : Type 0 where
  pub pair_name : String
  pub history_key : String
  pub file_count : ℕ
  pub bytes : ℕ
  pub measured_at : ℕ

pub data Reason : Type 0 where
  not_measured : String → Reason
  baseline_created baseline_too_small unexpected_source_drop within_limits : Reason

pub record Evaluation : Type 0 where
  pub blocked : Bool
  pub reason : Reason

-- A quarantine that was kept before endpoints were has none.
pub record Quarantine : Type 0 where
  pub evaluation : Evaluation
  pub pair_name : String
  pub history_key : String
  pub detected_at : ℕ
  pub endpoints : Option Endpoints

-- The setting `anomaly_guard:v1`.
pub record State : Type 0 where
  pub baselines : Table Baseline
  pub quarantines : Table Quarantine

abbrev pub empty_state : State
empty_state = record { baselines = []; quarantines = [] }

unfoldable pub is_destructive : Env → GuardedPair → Bool
is_destructive env p =
    str_eq (env.host.casefold p.direction) "bisync" || str_eq (env.host.casefold p.mode) "sync"

abbrev pub get_or {ℓ} : {A : Type ℓ} → A → Option A → A
get_or default none = default
get_or default (some value) = value

-- `pair_settings.get(name, settings.get(name, default))`
abbrev pub setting {ℓ} : {A : Type ℓ} → A → Option A → Option A → A
setting default general own = get_or (get_or default general) own

unfoldable pub guard_settings : GuardConfig → GuardedPair → Settings
guard_settings backup p = record {
  enabled = setting true backup.enabled p.guard.enabled;
  file_drop_percent = setting 3500 backup.file_drop_percent p.guard.file_drop_percent;
  size_drop_percent = setting 3500 backup.size_drop_percent p.guard.size_drop_percent;
  min_baseline_files = setting 100 backup.min_baseline_files p.guard.min_baseline_files;
}

-- `rclone_history_key` of app/jobs/scheduler.py
unfoldable pub rclone_history_key : Env → GuardedPair → String
unfolding strip rstrip_slashes
rclone_history_key env p =
    let stable_id = strip p.id in
    let remote = rstrip_slashes (strip p.remote_path) in
    let local = rstrip_slashes (strip p.local_path) in
    if not (is_empty stable_id)
    then append_text "rclone:id:" stable_id
    else if not (is_empty remote) || not (is_empty local)
    then env.digest remote local (env.lower (strip (or_else p.direction "bisync")))
        (env.lower (strip (or_else p.mode "bisync")))
    else append_text "rclone:name:" (env.host.casefold (strip p.name))

unfoldable pub state_key : Env → GuardedPair → String
unfolding rclone_history_key
state_key env p = env.sha256 (rclone_history_key env p)

-- `normalize_remote_path` of app/security.py
unfoldable pub normalize_remote_path : Env → String → String
unfolding partition contains_code lstrip_slashes rstrip_slashes
normalize_remote_path env path =
    let (remote, rest) = partition path in
    let stripped = lstrip_slashes (rstrip_slashes rest) in
    let cleaned = env.normpath (append_text "/" stripped) in
    if not (contains_code 58 path)
    then rstrip_slashes path
    else if is_empty stripped || str_eq cleaned "/"
    then append_text remote ":"
    else append_text remote (append_text ":" cleaned)

unfoldable pub endpoint : Env → String → String
unfolding normalize_remote_path is_remote
endpoint env path =
    let value = normalize_remote_path env path in
    if not (is_empty value) && not (is_remote value)
    then get_or value (env.resolve value)
    else value

unfoldable pub quarantine_endpoints : Env → GuardedPair → Endpoints
unfolding endpoint
quarantine_endpoints env p = record {
  local_path = endpoint env p.local_path;
  remote_path = endpoint env p.remote_path;
}

abbrev as_pair : Endpoints → Pair
as_pair e = record {
  name = "";
  local_path = e.local_path;
  remote_path = e.remote_path;
  enabled = true;
}

unfoldable pub endpoints_conflict : Env → Endpoints → Option Endpoints → Bool
unfolding pairs_conflict
endpoints_conflict env e none = false
endpoints_conflict env e (some f) = pairs_conflict env.host (as_pair e) (as_pair f)

unfoldable pub has_quarantine : Env → GuardedPair → State → Bool
unfolding state_key quarantine_endpoints endpoints_conflict
has_quarantine env p s =
    is_some (lookup (state_key env p) s.quarantines)
    || any_where (λ row. endpoints_conflict env (quarantine_endpoints env p) row.1.endpoints)
        s.quarantines

-- Of the pairs that are configured, the first whose quarantine binds the paths.
unfoldable pub configured_quarantine :
    Env → Endpoints → List GuardedPair → Table Quarantine → Option Quarantine
unfolding state_key quarantine_endpoints endpoints_conflict
configured_quarantine env current [] quarantines = none
configured_quarantine env current (c ∷ configured) quarantines =
    let rest = configured_quarantine env current configured quarantines in
    let binds = endpoints_conflict env current (some (quarantine_endpoints env c)) in
    elim (lookup (state_key env c) quarantines) [
      | none ↦ rest
      | some q ↦ if binds then some q else rest
    ]

abbrev pub value_of : Option (String × Quarantine) → Option Quarantine
value_of none = none
value_of (some row) = some row.1

abbrev pub first_some {ℓ} : {A : Type ℓ} → Option A → Option A → Option A
first_some none o = o
first_some (some a) o = some a

-- The quarantine that binds a destructive pair: its own, one of overlapping paths, or one of a
-- configured pair.
unfoldable pub active_quarantine : Env → GuardedPair → List GuardedPair → State → Option Quarantine
unfolding is_destructive state_key quarantine_endpoints endpoints_conflict configured_quarantine
active_quarantine env p configured s =
    let current = quarantine_endpoints env p in
    let overlapping =
      find_where (λ row. endpoints_conflict env current row.1.endpoints) s.quarantines in
    if is_destructive env p
    then first_some (lookup (state_key env p) s.quarantines) (
        first_some (value_of overlapping)
          (configured_quarantine env current configured s.quarantines))
    else none

-- At most 256 baselines are kept, the newest ones; quarantines stay.
unfoldable pub bounded_state : State → State
bounded_state s =
    let newest = take 256 (sort_by (λ a b. ltb b.1.measured_at a.1.measured_at) s.baselines) in
    record s { baselines = if ltb 256 (length s.baselines) then newest else s.baselines }

-- `drop >= limit`, where the drop is a part of the old number and the limit hundredths of a percent.
abbrev pub drops : ℕ → ℕ → ℕ → Bool
drops limit old new = leb (limit * max 1 old) (100 * 100 * (old - new))

-- `float(value or 35)` and `int(value or 100)`
abbrev pub nonzero_or : ℕ → ℕ → ℕ
nonzero_or default value = if value == 0 then default else value

unfoldable pub evaluate_anomaly : Option Baseline → Measurement → Settings → Evaluation
evaluate_anomaly baseline (failed cause) settings = record {
  blocked = false;
  reason = not_measured cause;
}
evaluate_anomaly none (measured new_count new_bytes at) settings = record {
  blocked = false;
  reason = baseline_created;
}
evaluate_anomaly (some old) (measured new_count new_bytes at) settings =
    let minimum = max 1 (nonzero_or 100 settings.min_baseline_files) in
    let blocked =
      drops (nonzero_or 3500 settings.file_drop_percent) old.file_count new_count
      || drops (nonzero_or 3500 settings.size_drop_percent) old.bytes new_bytes in
    if ltb old.file_count minimum
    then record { blocked = false; reason = baseline_too_small }
    else record {
      blocked = blocked;
      reason = if blocked then unexpected_source_drop else within_limits;
    }
