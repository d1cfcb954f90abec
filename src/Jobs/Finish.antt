-- ===== src/Jobs/Finish.antt =====
-- Ending a job (`_store_pair_results`, `_terminalize_running_attempts`, `job_finish` of app/db.py).
use rclone.Jobs.{
  Status, ok, error, warning, skipped, cancelled, is_running, is_cancelled, PairRun, Store,
  PairResult, Texts, or_null, or_empty, default_history_key,
}
use rclone.Jobs.States.{Seen, record_pair_history_state}
use rclone.Jobs.Start.{is_run_of}
use rclone.Base.{
  ℕ, ◌+◌, String, Bool, true, false, not, ◌&&◌, ◌||◌, Option, none, some, List, [], ◌∷◌, ◌++◌, map,
  str_eq, if◌then◌else◌, Table, any_where, or_else, strip, is_empty, lookup,
}

-- What is read of the summary of a job that ends. `payload` is its JSON text and `rest` what
-- `is_partial_restore_summary` says of it.
pub record Summary : Type 0 where
  pub payload : String
  pub dry_run : Bool
  pub trigger : String
  pub scheduled_slot : String
  pub error : String
  pub history_keys : Table String
  pub scheduler_slots : Table String
  pub pairs : List PairResult
  pub due : List String
  pub partial_restore : Bool

abbrev pub no_summary : Summary
no_summary = record {
  payload = "";
  dry_run = false;
  trigger = "";
  scheduled_slot = "";
  error = "";
  history_keys = [];
  scheduler_slots = [];
  pairs = [];
  due = [];
  partial_restore = false;
}

-- What the results of one job share.
pub record Ending : Type 0 where
  pub job_id : ℕ
  pub job_status : Status
  pub started_at : ℕ
  pub ended_at : ℕ
  pub job_kind : String

abbrev pub pair_key : Texts → Ending → Summary → String → String → String
pair_key x e m name given = strip (
    or_else given
      (or_else (or_empty (lookup name m.history_keys)) (default_history_key x e.job_kind name)))

abbrev pub pair_slot : Summary → String → String → Option String
pair_slot m name given = or_null (or_else given (or_empty (lookup name m.scheduler_slots)))

-- The pair with what the summary adds to it.
unfoldable pub complete_pair : Texts → Ending → Summary → PairResult → PairResult
complete_pair x e m p = record p {
  trigger = or_else p.trigger (strip m.trigger);
  history_key = pair_key x e m (strip p.name) p.history_key;
  scheduled_slot =
      or_else (or_empty (pair_slot m (strip p.name) p.scheduled_slot)) p.scheduled_slot;
  dry_run = p.dry_run || m.dry_run;
}

unfoldable pub pair_status : Ending → Summary → PairResult → Status
pair_status e m p =
    let plain =
      if p.succeeded
      then ok
      else if p.cancelled || is_cancelled e.job_status
      then cancelled
      else if p.skipped
      then skipped
      else error in
    if str_eq e.job_kind "restoretest"
      && not (p.dry_run || m.dry_run)
      && (p.verified_partial || str_eq (strip p.name) "restore-drill" && m.partial_restore)
    then warning
    else plain

-- `INSERT INTO pair_runs … ON CONFLICT(job_id, pair_name) DO UPDATE`
unfoldable pub overwrite_run : PairRun → PairRun → PairRun
overwrite_run new old =
    if is_run_of new.job_id new.pair_name old
    then record old {
      history_key = new.history_key;
      succeeded = new.succeeded;
      dry_run = new.dry_run;
      status = new.status;
      ended_at = new.ended_at;
      scheduled_slot = new.scheduled_slot;
      result_json = new.result_json;
    }
    else old

unfoldable pub upsert_run : PairRun → Store → Store
unfolding overwrite_run
upsert_run new s =
    if any_where (is_run_of new.job_id new.pair_name) s.runs
    then record s { runs = map (overwrite_run new) s.runs }
    else record s { runs = s.runs ++ (new ∷ []); next_run = s.next_run + 1 }

unfoldable pub see : Seen → Store → Store
see e s = record s { history = record_pair_history_state e s.history }

-- The row of a pair's result.
unfoldable pub pair_run : Texts → Ending → Summary → PairResult → ℕ → PairRun
unfolding complete_pair pair_status
pair_run x e m p id =
    let full = complete_pair x e m p in
    record {
      id = id;
      job_id = e.job_id;
      pair_name = strip p.name;
      history_key = full.history_key;
      succeeded = p.succeeded;
      dry_run = full.dry_run;
      status = pair_status e m p;
      started_at = e.started_at;
      ended_at = some e.ended_at;
      scheduled_slot = pair_slot m (strip p.name) p.scheduled_slot;
      result_json = x.pair_json full;
    }

unfoldable pub pair_seen : Texts → Ending → Summary → PairResult → Seen
unfolding complete_pair
pair_seen x e m p =
    let full = complete_pair x e m p in
    record {
      history_key = full.history_key;
      pair_name = strip p.name;
      seen_at = e.ended_at;
      succeeded = p.succeeded && not full.dry_run;
      terminal = not (is_running e.job_status);
      success_at = e.ended_at;
    }

unfoldable pub store_pair : Texts → Ending → Summary → PairResult → Store → Store
unfolding upsert_run see pair_run pair_seen
store_pair x e m p s =
    if is_empty (strip p.name)
    then s
    else see (pair_seen x e m p) (upsert_run (pair_run x e m p s.next_run) s)

unfoldable pub store_pairs : Texts → Ending → Summary → List PairResult → Store → Store
unfolding store_pair
store_pairs x e m [] s = s
store_pairs x e m (p ∷ ps) s = store_pairs x e m ps (store_pair x e m p s)

-- The row of a pair that was due when its job failed.
unfoldable pub due_run : Texts → Ending → Summary → String → ℕ → PairRun
due_run x e m name id = record {
  id = id;
  job_id = e.job_id;
  pair_name = name;
  history_key = pair_key x e m name "";
  succeeded = false;
  dry_run = m.dry_run;
  status = e.job_status;
  started_at = e.started_at;
  ended_at = some e.ended_at;
  scheduled_slot = pair_slot m name "";
  result_json = x.reserved_json (record {
    name = name;
    trigger = strip m.trigger;
    history_key = pair_key x e m name "";
    scheduled_slot = pair_slot m name "";
    dry_run = m.dry_run;
    error = if is_empty m.error then none else some m.error;
  });
}

unfoldable pub store_due : Texts → Ending → Summary → String → Store → Store
unfolding upsert_run see due_run
store_due x e m name_value s =
    let name = strip name_value in
    if is_empty name
    then s
    else see
        (record {
          history_key = pair_key x e m name "";
          pair_name = name;
          seen_at = e.ended_at;
          succeeded = false;
          terminal = true;
          success_at = 0;
        })
        (upsert_run (due_run x e m name s.next_run) s)

unfoldable pub store_dues : Texts → Ending → Summary → List String → Store → Store
unfolding store_due
store_dues x e m [] s = s
store_dues x e m (n ∷ ns) s = store_dues x e m ns (store_due x e m n s)
