-- ===== src/Jobs.antt =====
-- The rows of jobs and of their attempts at single pairs: the tables jobs, pair_runs,
-- pair_history_state, job_definition_schedule_state and job_terminal_intents of app/db.py.
-- A call gives `none` where the code raises; the transaction is then rolled back.
pub mod States
pub mod Start
pub mod Finish
pub mod Close
pub mod Stale
pub mod Terminal
pub mod Settled
pub mod Calls
pub mod Lifecycle
pub mod Scope
pub mod Intents
pub mod External
pub mod History
pub mod Success
pub mod Attempts
pub mod Endings
pub mod Attended
mod Examples
use Prim.Native.String.{◌++◌ as append_text}
use rclone.Base.{
  ℕ, zero, suc, ◌+◌, ◌-◌, ◌*◌, ◌/◌, ◌%◌, ◌^◌, ◌≤◌, ◌<◌, min, max, String, ◌≡◌, refl, sym, ap, ◌∙◌,
  ◌≢◌, ◌↔◌, ◌⊎◌, inl, inr, Bool, true, false, not, ◌&&◌, ◌||◌, Option, none, some, List, [], ◌∷◌,
  ◌++◌, map, arith, str_eq, eq_iff, eq_refl, ltb, leb, ◌==◌, if◌then◌else◌, clamp, is_some,
  Bool-cases, Option-cases, length, All, Table, find_where, strip, is_empty, remove_prefix,
  starts_with,
}

-- `jobs.status`, and `pair_runs.status` with the same words.
pub data Status : Type 0 where
  running ok error warning skipped cancelled stale : Status

abbrev pub is_running : Status → Bool
is_running running = true
is_running _ = false

abbrev pub is_ok : Status → Bool
is_ok ok = true
is_ok _ = false

abbrev pub is_cancelled : Status → Bool
is_cancelled cancelled = true
is_cancelled _ = false

-- A row of `jobs`.
pub record Job : Type 0 where
  pub id : ℕ
  pub kind : String
  pub status : Status
  pub started_at : ℕ
  pub ended_at : Option ℕ
  pub summary_json : Option String
  pub log_file : Option String
  pub definition_id : Option String
  pub definition_name : Option String
  pub config_revision : Option String
  pub scheduled_slot : Option String
  pub dry_run : Bool
  pub trigger : String

-- A row of `pair_runs`; `succeeded` is its column `ok`.
pub record PairRun : Type 0 where
  pub id : ℕ
  pub job_id : ℕ
  pub pair_name : String
  pub history_key : String
  pub succeeded : Bool
  pub dry_run : Bool
  pub status : Status
  pub started_at : ℕ
  pub ended_at : Option ℕ
  pub scheduled_slot : Option String
  pub result_json : String

-- A row of `pair_history_state`, without its key.
pub record PairHistory : Type 0 where
  pub pair_name : String
  pub ever_succeeded : Bool
  pub terminal_seen : Bool
  pub first_seen_at : ℕ
  pub last_seen_at : ℕ
  pub last_success_at : Option ℕ

-- The columns `last_attempt_*` of `job_definition_schedule_state`, which are set together. Those
-- named `last_success_*` are the same but for the status, which is then `ok`.
pub record Fact : Type 0 where
  pub job_id : ℕ
  pub started_at : ℕ
  pub at : ℕ
  pub status : Status
  pub trigger : String
  pub scheduled_slot : Option String

-- A row of `job_definition_schedule_state`, without its key.
pub record ScheduleState : Type 0 where
  pub definition_name : String
  pub last_attempt : Option Fact
  pub last_success : Option Fact
  pub updated_at : ℕ

-- A row of `job_terminal_intents`.
pub record Intent : Type 0 where
  pub job_id : ℕ
  pub status : Status
  pub summary_json : String
  pub created_at : ℕ
  pub updated_at : ℕ
  pub applied_at : Option ℕ

-- The tables, with the numbers of the next rows.
pub record Store : Type 0 where
  pub jobs : List Job
  pub runs : List PairRun
  pub history : Table PairHistory
  pub schedule : Table ScheduleState
  pub intents : List Intent
  pub next_job : ℕ
  pub next_run : ℕ

-- A pair in the summary of a job that ends. `rest` stands for its other entries, and
-- `verified_partial` for what `is_verified_partial` says of it.
pub record PairResult : Type 0 where
  pub name : String
  pub history_key : String
  pub scheduled_slot : String
  pub trigger : String
  pub succeeded : Bool
  pub cancelled : Bool
  pub skipped : Bool
  pub dry_run : Bool
  pub verified_partial : Bool
  pub rest : String

-- The result of an attempt that was reserved, and of a pair that was due when its job failed.
pub record Reserved : Type 0 where
  pub name : String
  pub trigger : String
  pub history_key : String
  pub scheduled_slot : Option String
  pub dry_run : Bool
  pub error : Option String

-- What is not under app/: Python's lower and casefold, and the texts of `_json_dumps_bounded`.
-- `ended_json` is the text of an attempt, read again and ended with a status and an error.
pub record Texts : Type 0 where
  pub lower : String → String
  pub casefold : String → String
  pub reserved_json : Reserved → String
  pub pair_json : PairResult → String
  pub ended_json : String → Status → Option String → String
  pub stale_json : String → ℕ → String

-- `str(value or "").strip() or None`
unfoldable pub or_null : String → Option String
unfolding strip
or_null text = let s = strip text in if is_empty s then none else some s

abbrev pub or_empty : Option String → String
or_empty none = ""
or_empty (some s) = s

unfoldable pub default_history_key : Texts → String → String → String
unfolding strip remove_prefix starts_with
default_history_key x job_kind pair_name =
    let name = strip pair_name in
    if str_eq (x.lower (strip job_kind)) "pbs" || starts_with name "pbs:"
    then append_text "pbs:name:" (x.casefold (remove_prefix name "pbs:"))
    else append_text "rclone:name:" (x.casefold name)

-- `_BACKUP_SCOPE_KINDS`
abbrev pub is_backup_kind : String → Bool
is_backup_kind kind =
    str_eq kind "backup"
    || str_eq kind "check"
    || str_eq kind "quicksync"
    || str_eq kind "restoretest"
    || str_eq kind "recovery"

-- `other in _JOB_SCOPE_KINDS.get(kind, (kind,))`
unfoldable pub in_scope : String → String → Bool
in_scope kind other = if is_backup_kind kind then is_backup_kind other else str_eq other kind

abbrev pub find_job : ℕ → List Job → Option Job
find_job id jobs = find_where (λ j. j.id == id) jobs
