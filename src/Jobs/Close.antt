-- ===== src/Jobs/Close.antt =====
-- The attempts that a job leaves open, and the end of the job itself
-- (`_terminalize_running_attempts`, `_store_pair_results`, `job_finish` of app/db.py).
use rclone.Jobs.{
  Status, error, skipped, cancelled, stale, is_running, Job, PairRun, Store, Texts, or_null,
  or_empty, find_job,
}
use rclone.Jobs.States.{record_schedule_state}
use rclone.Jobs.Finish.{Summary, no_summary, Ending, see, store_pairs, store_dues}
use rclone.Base.{
  ℕ, String, Bool, true, false, ◌&&◌, ◌||◌, Option, none, some, List, [], ◌∷◌, map, ◌==◌,
  if◌then◌else◌, is_empty, keep_where, or_else, strip,
}

abbrev pub is_open_run : ℕ → PairRun → Bool
is_open_run job_id p = p.job_id == job_id && is_running p.status

unfoldable pub end_run : Texts → ℕ → Status → ℕ → Option String → PairRun → PairRun
end_run x job_id status ended_at cause p =
    if is_open_run job_id p
    then record p {
      status = status;
      succeeded = false;
      ended_at = some ended_at;
      result_json = x.ended_json p.result_json status cause;
    }
    else p

unfoldable pub see_ended : ℕ → List PairRun → Store → Store
unfolding see
see_ended ended_at [] s = s
see_ended ended_at (p ∷ ps) s = see_ended ended_at ps (
    see
      (record {
        history_key = p.history_key;
        pair_name = p.pair_name;
        seen_at = ended_at;
        succeeded = false;
        terminal = true;
        success_at = 0;
      })
      s)

-- `_terminalize_running_attempts` for one job.
unfoldable pub end_attempts : Texts → ℕ → Status → ℕ → Option String → Store → Store
unfolding end_run see_ended
end_attempts x job_id status ended_at cause s =
    see_ended ended_at (keep_where (is_open_run job_id) s.runs)
      (record s { runs = map (end_run x job_id status ended_at cause) s.runs })

unfoldable pub end_attempts_all : Texts → List ℕ → Status → ℕ → Option String → Store → Store
unfolding end_attempts
end_attempts_all x [] status ended_at cause s = s
end_attempts_all x (id ∷ ids) status ended_at cause s =
    end_attempts_all x ids status ended_at cause (end_attempts x id status ended_at cause s)

-- `job_status in {"error", "stale", "cancelled"}`
abbrev pub fails_due : Status → Bool
fails_due error = true
fails_due stale = true
fails_due cancelled = true
fails_due _ = false

-- The status of an attempt that its job left open.
abbrev pub unfinished_status : Status → Status
unfinished_status cancelled = cancelled
unfinished_status stale = stale
unfinished_status skipped = skipped
unfinished_status _ = error

unfoldable pub store_pair_results : Texts → Ending → Summary → Store → Store
unfolding store_pairs store_dues end_attempts
store_pair_results x e m s =
    let paired = store_pairs x e m m.pairs s in
    let with_due = if fails_due e.job_status then store_dues x e m m.due paired else paired in
    let failure = if is_empty m.error then none else some m.error in
    if is_running e.job_status
    then with_due
    else end_attempts x e.job_id (unfinished_status e.job_status) e.ended_at failure with_due

abbrev pub effective_trigger : Summary → Job → String
effective_trigger m j = or_else (strip (or_else m.trigger (or_else j.trigger "manual"))) "manual"

abbrev pub effective_slot : Summary → Job → Option String
effective_slot m j = or_null (or_else m.scheduled_slot (or_empty j.scheduled_slot))

abbrev pub coalesce : Option String → Option String → Option String
coalesce none new = new
coalesce (some old) new = some old

unfoldable pub finish_row : ℕ → Status → ℕ → Option String → Summary → Job → Job
finish_row id status ended_at payload m j =
    if j.id == id && is_running j.status
    then record j {
      status = status;
      ended_at = some ended_at;
      summary_json = payload;
      dry_run = j.dry_run || m.dry_run;
      trigger = effective_trigger m j;
      scheduled_slot = coalesce j.scheduled_slot (effective_slot m j);
    }
    else j

unfoldable pub note_end : Job → Status → ℕ → Summary → Store → Store
note_end j status ended_at m s = record s {
  schedule =
      record_schedule_state
        (record {
          definition_id = or_empty j.definition_id;
          definition_name = or_empty j.definition_name;
          job_id = j.id;
          started_at = j.started_at;
          ended_at = some ended_at;
          status = status;
          trigger = effective_trigger m j;
          scheduled_slot = or_empty (effective_slot m j);
          dry_run = j.dry_run || m.dry_run;
        })
        s.schedule;
}

abbrev pub summary_of : Option Summary → Summary
summary_of none = no_summary
summary_of (some m) = m

abbrev pub payload_of : Option Summary → Option String
payload_of none = none
payload_of (some m) = some m.payload

-- The job is running: its row, the results of its pairs, and the schedule state.
unfoldable pub close_job : Texts → Job → Status → Option Summary → ℕ → Store → Store
unfolding finish_row store_pair_results note_end
close_job x j status given now s =
    let m = summary_of given in
    let ended = record s { jobs = map (finish_row j.id status now (payload_of given) m) s.jobs } in
    note_end j status now m (
      store_pair_results x
        (record {
          job_id = j.id;
          job_status = status;
          started_at = j.started_at;
          ended_at = now;
          job_kind = j.kind;
        })
        m ended)

unfoldable pub finish_found :
    Texts → Option Job → Status → Option Summary → ℕ → Store → Option (Bool × Store)
unfolding close_job
finish_found x none status given now s = none
finish_found x (some j) status given now s =
    if is_running j.status then some (true, close_job x j status given now s) else some (false, s)

-- `none` for a job that is not there; `false` for one that has ended.
unfoldable pub job_finish : Texts → ℕ → Status → Option Summary → ℕ → Store → Option (Bool × Store)
unfolding finish_found
job_finish x id status given now s = finish_found x (find_job id s.jobs) status given now s
