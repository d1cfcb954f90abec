-- ===== src/Jobs/Stale.antt =====
-- Jobs whose process is gone (`job_mark_stale`, `jobs_mark_all_running_stale`, `jobs_mark_stale` of
-- app/db.py), and the deletion of jobs that have ended.
use rclone.Throttle.{second, day}
use rclone.Jobs.{Status, error, cancelled, stale, is_running, Job, Store, Texts, or_empty}
use rclone.Jobs.States.{record_schedule_state}
use rclone.Jobs.Close.{end_attempts_all}
use rclone.Base.{
  ℕ, ◌+◌, ◌*◌, max, String, Bool, true, false, not, ◌&&◌, ◌||◌, some, List, [], ◌∷◌, map, str_eq,
  ltb, leb, ◌==◌, if◌then◌else◌, length, any_where, drop_where, is_empty, keep_where, or_else, take,
  count_where, sort_by, strip,
}

unfoldable pub stale_row : (Job → Bool) → Texts → String → ℕ → Job → Job
stale_row lost x reason now j =
    if is_running j.status && lost j
    then record j {
      status = stale;
      ended_at = some now;
      summary_json = some (x.stale_json reason now);
    }
    else j

unfoldable pub note_stale : ℕ → List Job → Store → Store
note_stale now [] s = s
note_stale now (j ∷ js) s = note_stale now js (record s {
  schedule =
      record_schedule_state
        (record {
          definition_id = or_empty j.definition_id;
          definition_name = or_empty j.definition_name;
          job_id = j.id;
          started_at = j.started_at;
          ended_at = some now;
          status = stale;
          trigger = or_else j.trigger "manual";
          scheduled_slot = or_empty j.scheduled_slot;
          dry_run = j.dry_run;
        })
        s.schedule;
})

-- The running jobs that a test finds lost are ended as stale, with their attempts; the reply is
-- their number.
unfoldable pub mark_lost : (Job → Bool) → Texts → String → ℕ → Store → ℕ × Store
unfolding stale_row note_stale end_attempts_all
mark_lost lost x reason now s =
    let rows = keep_where (λ j. is_running j.status && lost j) s.jobs in
    let marked = record s { jobs = map (stale_row lost x reason now) s.jobs } in
    (
      length rows,
      note_stale now rows
          (end_attempts_all x (map (λ j. j.id) rows) stale now (some reason) marked),
    )

unfoldable pub job_mark_stale : Texts → ℕ → String → ℕ → Store → Bool × Store
unfolding mark_lost
job_mark_stale x id reason now s =
    let (n, s') = mark_lost (λ j. j.id == id) x reason now s in (n == 1, s')

-- `normalized_kinds` without its duplicates: only membership is asked for.
abbrev pub of_kinds : List String → Job → Bool
of_kinds kinds j =
    let wanted = keep_where (λ k. not (is_empty (strip k))) kinds in
    leb (length wanted) 0 || any_where (λ k. str_eq (strip k) j.kind) wanted

unfoldable pub jobs_mark_all_running_stale : Texts → List String → String → ℕ → Store → ℕ × Store
unfolding mark_lost
jobs_mark_all_running_stale x kinds reason now s = mark_lost (of_kinds kinds) x reason now s

-- An empty kind stands for none.
unfoldable pub jobs_mark_stale : Texts → ℕ → String → String → ℕ → Store → ℕ × Store
unfolding mark_lost
jobs_mark_stale x max_age_sec kind reason now s =
    mark_lost
      (λ j.
        ltb (j.started_at + max 60 max_age_sec * second) now
        && (is_empty kind || str_eq j.kind kind))
      x reason now s

-- `ON DELETE CASCADE` of the attempts and of the intent.
unfoldable pub delete_jobs : (Job → Bool) → Store → ℕ × Store
delete_jobs gone s =
    let kept = drop_where gone s.jobs in
    let has = λ (id : ℕ). any_where (λ j. j.id == id) kept in
    (
      count_where gone s.jobs,
      record s {
        jobs = kept;
        runs = keep_where (λ p. has p.job_id) s.runs;
        intents = keep_where (λ i. has i.job_id) s.intents;
      },
    )

abbrev pub is_failed : Status → Bool
is_failed error = true
is_failed stale = true
is_failed cancelled = true
is_failed _ = false

-- `is_warning` is what `_historical_restore_warning` says of a job.
unfoldable pub jobs_delete_failed : (Job → Bool) → Store → ℕ × Store
unfolding delete_jobs
jobs_delete_failed is_warning s = delete_jobs (λ j. is_failed j.status && not (is_warning j)) s

abbrev pub newest_ids : ℕ → List Job → List ℕ
newest_ids n jobs = map (λ j. j.id) (take n (sort_by (λ a b. ltb b.started_at a.started_at) jobs))

unfoldable pub jobs_prune : ℕ → ℕ → ℕ → Store → ℕ × Store
unfolding delete_jobs
jobs_prune older_than_days keep_latest now s =
    let kept = newest_ids keep_latest s.jobs in
    delete_jobs
      (λ j.
        not (is_running j.status)
        && ltb (j.started_at + max 1 older_than_days * day) now
        && not (any_where (λ id. id == j.id) kept))
      s
