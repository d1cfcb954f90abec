-- ===== src/Jobs/Start.antt =====
-- Starting a job (`job_start` of app/db.py).
use rclone.Runtime.{text_length}
use rclone.Jobs.{
  running, is_running, Job, PairRun, Store, Texts, or_null, or_empty, default_history_key, in_scope,
}
use rclone.Jobs.States.{record_pair_history_state, record_schedule_state}
use rclone.Base.{
  ℕ, ◌+◌, String, ◌⊎◌, inl, inr, Bool, true, false, ◌&&◌, ◌||◌, Option, none, some, List, [], ◌∷◌,
  ◌++◌, str_eq, ltb, ◌==◌, if◌then◌else◌, length, any_where, is_empty, or_else, sort_by, strip,
  keep_where,
}

-- An attempt at a pair that is reserved with the job.
pub record Attempt : Type 0 where
  pub name : String
  pub history_key : String
  pub scheduled_slot : String
  pub trigger : String
  pub dry_run : Bool

-- The arguments of `job_start`; `dry_run` is `none` where the caller gives none.
pub record Request : Type 0 where
  pub kind : String
  pub log_file : Option String
  pub attempts : List Attempt
  pub exclusive_scope : Bool
  pub definition_id : String
  pub definition_name : String
  pub config_revision : String
  pub scheduled_slot : String
  pub dry_run : Option Bool
  pub trigger : String

-- ValueError, and JobAlreadyRunningError with the kind and number of the job that holds the scope.
pub data Refusal : Type 0 where
  invalid_kind : Refusal
  already_running : String → ℕ → Refusal

abbrev pub all_dry : List Attempt → Bool
all_dry [] = true
all_dry (a ∷ others) = a.dry_run && all_dry others

abbrev pub inferred_dry_run : Request → Bool
inferred_dry_run r = elim r.dry_run [
  | none ↦ ltb 0 (length r.attempts) && all_dry r.attempts
  | some dry ↦ dry
]

-- The distinct triggers of the attempts, without the empty ones.
unfoldable pub attempt_triggers : List Attempt → List String
attempt_triggers [] = []
attempt_triggers (a ∷ others) =
    let rest = attempt_triggers others in
    let trigger = strip a.trigger in
    if is_empty trigger || any_where (λ t. str_eq t trigger) rest then rest else trigger ∷ rest

abbrev pub only_one : List String → String
only_one (t ∷ []) = t
only_one _ = ""

unfoldable pub inferred_trigger : Request → String
unfolding attempt_triggers
inferred_trigger r = or_else (strip r.trigger) (
    or_else (only_one (attempt_triggers r.attempts))
      (if is_empty r.scheduled_slot then "manual" else "scheduler"))

unfoldable pub new_job : Request → ℕ → ℕ → Job
unfolding inferred_trigger or_null
new_job r now id = record {
  id = id;
  kind = r.kind;
  status = running;
  started_at = now;
  ended_at = none;
  summary_json = none;
  log_file = r.log_file;
  definition_id = or_null r.definition_id;
  definition_name = or_null r.definition_name;
  config_revision = or_null r.config_revision;
  scheduled_slot = or_null r.scheduled_slot;
  dry_run = inferred_dry_run r;
  trigger = inferred_trigger r;
}

abbrev pub is_run_of : ℕ → String → PairRun → Bool
is_run_of job_id name p = p.job_id == job_id && str_eq p.pair_name name

unfoldable pub attempt_key : Texts → String → Attempt → String
unfolding default_history_key
attempt_key x kind a = strip (or_else a.history_key (default_history_key x kind (strip a.name)))

unfoldable pub new_run : Texts → String → ℕ → ℕ → ℕ → Attempt → PairRun
unfolding attempt_key or_null
new_run x kind now job_id id a = record {
  id = id;
  job_id = job_id;
  pair_name = strip a.name;
  history_key = attempt_key x kind a;
  succeeded = false;
  dry_run = a.dry_run;
  status = running;
  started_at = now;
  ended_at = none;
  scheduled_slot = or_null a.scheduled_slot;
  result_json = x.reserved_json (record {
    name = strip a.name;
    trigger = or_else a.trigger "manual";
    history_key = attempt_key x kind a;
    scheduled_slot = or_null a.scheduled_slot;
    dry_run = a.dry_run;
    error = none;
  });
}

-- `INSERT OR IGNORE INTO pair_runs`
unfoldable pub add_run : Texts → String → ℕ → ℕ → Attempt → Store → Store
unfolding new_run
add_run x kind now job_id a s =
    if any_where (is_run_of job_id (strip a.name)) s.runs then s else record s {
      runs = s.runs ++ (new_run x kind now job_id s.next_run a ∷ []);
      next_run = s.next_run + 1;
    }

unfoldable pub reserve : Texts → String → ℕ → ℕ → Attempt → Store → Store
unfolding add_run
reserve x kind now job_id a s =
    let added = add_run x kind now job_id a s in
    if is_empty (strip a.name) then s else record added {
      history =
          record_pair_history_state
            (record {
              history_key = attempt_key x kind a;
              pair_name = strip a.name;
              seen_at = now;
              succeeded = false;
              terminal = false;
              success_at = 0;
            })
            added.history;
    }

unfoldable pub reserve_all : Texts → String → ℕ → ℕ → List Attempt → Store → Store
unfolding reserve
reserve_all x kind now job_id [] s = s
reserve_all x kind now job_id (a ∷ others) s =
    reserve_all x kind now job_id others (reserve x kind now job_id a s)

unfoldable pub holds_scope : String → Job → Bool
unfolding in_scope
holds_scope kind j = is_running j.status && in_scope kind j.kind

abbrev pub first_of : List Job → Option Job
first_of [] = none
first_of (j ∷ js) = some j

-- The running job that holds the scope of a kind, the one started last.
unfoldable pub scope_holder : String → List Job → Option Job
unfolding holds_scope
scope_holder kind jobs =
    first_of (sort_by (λ a b. ltb b.started_at a.started_at) (keep_where (holds_scope kind) jobs))

-- The schedule state of a job that the scheduler starts.
unfoldable pub note_start : Request → ℕ → ℕ → Store → Store
unfolding inferred_trigger
note_start r now id s =
    if str_eq (inferred_trigger r) "scheduler"
    then record s {
      schedule =
          record_schedule_state
            (record {
              definition_id = r.definition_id;
              definition_name = r.definition_name;
              job_id = id;
              started_at = now;
              ended_at = none;
              status = running;
              trigger = inferred_trigger r;
              scheduled_slot = or_empty (or_null r.scheduled_slot);
              dry_run = inferred_dry_run r;
            })
            s.schedule;
    }
    else s

unfoldable pub open_job : Texts → Request → ℕ → Store → ℕ × Store
unfolding new_job reserve_all note_start
open_job x r now s =
    let id = s.next_job in
    let inserted = record s { jobs = s.jobs ++ (new_job r now id ∷ []); next_job = id + 1 } in
    (id, note_start r now id (reserve_all x r.kind now id r.attempts inserted))

unfoldable pub enter_scope : Texts → Request → ℕ → Store → Option Job → Refusal ⊎ (ℕ × Store)
unfolding open_job
enter_scope x r now s none = inr (open_job x r now s)
enter_scope x r now s (some j) = inl (already_running j.kind j.id)

unfoldable pub job_start : Texts → Request → ℕ → Store → Refusal ⊎ (ℕ × Store)
unfolding enter_scope scope_holder text_length
job_start x r now s =
    let entered = enter_scope x r now s (scope_holder r.kind s.jobs) in
    if is_empty r.kind || ltb 64 (text_length r.kind)
    then inl invalid_kind
    else if r.exclusive_scope
    then entered
    else inr (open_job x r now s)
