-- ===== src/Jobs/Examples.antt =====
-- Jobs of app/db.py: a backup that runs and ends, a check that is refused meanwhile, and what is
-- kept of both.
use mathlib.Core.List.{foldr}
use mathlib.Core.List.Perm
use rclone.Jobs.{running, ok, error, Job, Store, Texts, Status}
use rclone.Jobs.Start.{Request, Attempt}
use rclone.Jobs.Finish.{no_summary}
use rclone.Jobs.States.{Seen, Report, fact_of, record_pair_history_state, record_schedule_state}
use rclone.Jobs.Calls.{Call, start, finish, mark_all_stale, delete_failed, set_log_file, run}
use rclone.Jobs.Lifecycle.{IsFinal, run-IsFinal}
use rclone.Jobs.Scope.{IsExclusive, run-IsExclusive}
use rclone.Jobs.Attended.{IsAttended, run-IsAttended}
use rclone.Jobs.Terminal.{at_stage, at_mark, never, job_finish_external}
use rclone.Jobs.External.{IsSettled, job_finish_external-done}
use rclone.Jobs.History.{known, record_pair_history_state-order}
use rclone.Jobs.Success.{AsNew, success_of, record_schedule_state-AsNew_success}
use rclone.Base.{
  ℕ, String, ◌≡◌, refl, Bool, true, false, none, some, List, [], ◌∷◌, arith, lookup, strip,
}

abbrev texts : Texts
texts = record {
  lower = λ s. s;
  casefold = λ s. s;
  reserved_json = λ r. r.name;
  pair_json = λ p. p.name;
  ended_json = λ before status cause. before;
  stale_json = λ reason now. reason;
}

abbrev attempt : Attempt
attempt = record {
  name = "docs";
  history_key = "key";
  scheduled_slot = "";
  trigger = "manual";
  dry_run = false;
}

abbrev request : String → Request
request kind = record {
  kind = kind;
  log_file = none;
  attempts = attempt ∷ [];
  exclusive_scope = true;
  definition_id = "d1";
  definition_name = "Docs";
  config_revision = "r1";
  scheduled_slot = "";
  dry_run = none;
  trigger = "manual";
}

abbrev empty : Store
empty = record {
  jobs = [];
  runs = [];
  history = [];
  schedule = [];
  intents = [];
  next_job = 1;
  next_run = 1;
}

abbrev calls : List Call
calls =
    start (request "backup") 10
    ∷ start (request "check") 20
    ∷ finish 1 error (some no_summary) 30
    ∷ start (request "check") 40
    ∷ mark_all_stale [] "lost" 50
    ∷ set_log_file 2 "check.log"
    ∷ delete_failed (λ j. false)
    ∷ []

run-IsExclusive_example : IsExclusive (run texts calls empty)
run-IsExclusive_example =
    run-IsExclusive texts calls empty (refl, (refl, (refl, (refl, (refl, (refl, (refl, tt)))))))
      (λ kind. omega arith)

run-IsAttended_example : IsAttended (run texts calls empty)
run-IsAttended_example = run-IsAttended texts calls empty tt

abbrev ended : Job
ended = record {
  id = 0;
  kind = "backup";
  status = ok;
  started_at = 1;
  ended_at = some 2;
  summary_json = some "{}";
  log_file = none;
  definition_id = none;
  definition_name = none;
  config_revision = none;
  scheduled_slot = none;
  dry_run = false;
  trigger = "manual";
}

run-IsFinal_example :
    IsFinal 0 ok (some 2) (some "{}") (run texts calls (record empty { jobs = ended ∷ [] }))
run-IsFinal_example =
    run-IsFinal texts calls (record empty { jobs = ended ∷ [] }) 0 ok (some 2) (some "{}") refl
      (omega arith, ((λ same. (refl, refl, refl)), tt))

abbrev begun : Store
begun = record empty { jobs = record ended { status = running } ∷ [] }

job_finish_external-done_example : IsSettled 0 ok (
    job_finish_external texts
      (λ text. no_summary)
      0
      ok
      "{}"
      ((at_stage, 10) ∷ (at_mark, 20) ∷ (never, 30) ∷ [])
      begun)
job_finish_external-done_example =
    job_finish_external-done texts (λ text. no_summary) 0 ok "{}"
      ((at_stage, 10) ∷ (at_mark, 20) ∷ (never, 30) ∷ []) begun refl refl (refl, refl)

abbrev seen : ℕ → Bool → Seen
seen at good = record {
  history_key = "key";
  pair_name = "docs";
  seen_at = at;
  succeeded = good;
  terminal = true;
  success_at = at;
}

record_pair_history_state-order_example :
    known (lookup "key" (foldr record_pair_history_state [] (seen 10 true ∷ seen 20 false ∷ [])))
    ≡ known (lookup "key" (foldr record_pair_history_state [] (seen 20 false ∷ seen 10 true ∷ [])))
record_pair_history_state-order_example =
    record_pair_history_state-order "key" [] (seen 10 true ∷ seen 20 false ∷ [])
      (seen 20 false ∷ seen 10 true ∷ []) (Perm.swap (seen 20 false) (seen 10 true) [])

abbrev report : Status → ℕ → Report
report status at = record {
  definition_id = "d1";
  definition_name = "Docs";
  job_id = at;
  started_at = at;
  ended_at = none;
  status = status;
  trigger = "scheduler";
  scheduled_slot = "";
  dry_run = false;
}

record_schedule_state-AsNew_success_example : AsNew (fact_of (report ok 50)) (
    success_of (strip "d1") (
      foldr record_schedule_state
        (record_schedule_state (report ok 50) [])
        (report error 70 ∷ report ok 40 ∷ [])))
unfolding strip
record_schedule_state-AsNew_success_example =
    record_schedule_state-AsNew_success (report ok 50) (report error 70 ∷ report ok 40 ∷ []) [] refl
      refl refl
