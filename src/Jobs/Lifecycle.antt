-- ===== src/Jobs/Lifecycle.antt =====
-- The row of a job that has ended keeps its result (app/db.py).
use rclone.Jobs.Settled.{stage-keeps, apply-keeps, finish_external-keeps, recover-keeps}
use rclone.Jobs.Terminal.{store_of}
use rclone.Jobs.{Status, Job, Store, Texts, is_running, stale}
use rclone.Jobs.Start.{Request, job_start, open_job, new_job, reserve_all, note_start}
use rclone.Jobs.Finish.{Summary, Ending}
use rclone.Jobs.Close.{
  job_finish, finish_found, close_job, finish_row, store_pair_results, note_end, summary_of,
  payload_of, end_attempts_all,
}
use rclone.Throttle.{second, day}
use rclone.Jobs.Stale.{
  of_kinds, is_failed, newest_ids, note_stale, mark_lost, stale_row, job_mark_stale,
  jobs_mark_all_running_stale, jobs_mark_stale, jobs_delete_failed, jobs_prune, delete_jobs,
}
use rclone.Jobs.Calls.{
  job_start-cases, job_finish-cases, Call, start, finish, mark_stale, mark_all_stale,
  mark_old_stale, delete_failed, prune, set_log_file, stage, apply, finish_external, recover,
  set_log, job_set_log_file, step, run, SameJobs, reserve_all-SameJobs, note_start-SameJobs,
  store_pair_results-SameJobs, end_attempts_all-SameJobs, note_stale-SameJobs,
}
use rclone.Base.{
  any_where, ℕ, ◌+◌, ◌*◌, ◌<◌, max, String, ◌≡◌, Bool, false, not, ◌&&◌, ◌||◌, Option, some, List,
  [], ◌∷◌, ◌++◌, map, arith, str_eq, ltb, ◌==◌, All, All-append, All-map, is_empty, keep_where,
  keep_where-All,
}

-- The row of the job, where it is there, has ended with this result.
abbrev pub HasEnded : ℕ → Status → Option ℕ → Option String → Job → Type 0
HasEnded id status ended_at summary j =
    j.id ≡ id → (j.status ≡ status) × (j.ended_at ≡ ended_at) × (j.summary_json ≡ summary)

-- The job's number was given out, and its row has ended with this result.
abbrev pub IsFinal : ℕ → Status → Option ℕ → Option String → Store → Type 0
IsFinal id status ended_at summary s =
    (id < s.next_job) × All (HasEnded id status ended_at summary) s.jobs

module _ (id : ℕ) (status : Status) (ended_at : Option ℕ) (summary : Option String)
    (final : is_running status ≡ false) where
  same-IsFinal :
      (s t : Store)
      → SameJobs s t
      → IsFinal id status ended_at summary s
      → IsFinal id status ended_at summary t
  same-IsFinal s t (jobs, next, intents) (below, all) = rw (jobs, next) (below, all)

  finish_row-HasEnded :
      (other : ℕ) (new : Status) (now : ℕ) (payload : Option String) (m : Summary) (j : Job)
      → HasEnded id status ended_at summary j
      → HasEnded id status ended_at summary (finish_row other new now payload m j)
  unfolding finish_row
  finish_row-HasEnded other new now payload m j h same = ground (arith, h)

  stale_row-HasEnded :
      (lost : Job → Bool) (x : Texts) (reason : String) (now : ℕ) (j : Job)
      → HasEnded id status ended_at summary j
      → HasEnded id status ended_at summary (stale_row lost x reason now j)
  unfolding stale_row
  stale_row-HasEnded lost x reason now j h same = ground (arith, h)

  mark_lost-IsFinal :
      (lost : Job → Bool) (x : Texts) (reason : String) (now : ℕ) (s : Store)
      → IsFinal id status ended_at summary s
      → IsFinal id status ended_at summary (mark_lost lost x reason now s).1
  unfolding mark_lost
  mark_lost-IsFinal lost x reason now s (below, all) =
      let rows = keep_where (λ j. is_running j.status && lost j) s.jobs in
      let marked = record s { jobs = map (stale_row lost x reason now) s.jobs } in
      let ended = end_attempts_all x (map (λ j. j.id) rows) stale now (some reason) marked in
      same-IsFinal ended (note_stale now rows ended) (note_stale-SameJobs now rows ended) (
        same-IsFinal marked ended
          (end_attempts_all-SameJobs x (map (λ j. j.id) rows) stale now (some reason) marked)
          (
            below,
            All-map (HasEnded id status ended_at summary) (HasEnded id status ended_at summary)
                (stale_row lost x reason now) (stale_row-HasEnded lost x reason now) s.jobs all,
          ))

  close_job-IsFinal :
      (x : Texts) (j : Job) (new : Status) (given : Option Summary) (now : ℕ) (s : Store)
      → IsFinal id status ended_at summary s
      → IsFinal id status ended_at summary (close_job x j new given now s)
  unfolding close_job note_end
  close_job-IsFinal x j new given now s (below, all) =
      let m = summary_of given in
      let f = finish_row j.id new now (payload_of given) m in
      let ended = record s { jobs = map f s.jobs } in
      let e : Ending = record {
        job_id = j.id;
        job_status = new;
        started_at = j.started_at;
        ended_at = now;
        job_kind = j.kind;
      } in
      same-IsFinal ended (note_end j new now m (store_pair_results x e m ended))
        (store_pair_results-SameJobs x e m ended)
        (
          below,
          All-map (HasEnded id status ended_at summary) (HasEnded id status ended_at summary) f
              (finish_row-HasEnded j.id new now (payload_of given) m) s.jobs all,
        )

  open_job-IsFinal :
      (x : Texts) (r : Request) (now : ℕ) (s : Store)
      → IsFinal id status ended_at summary s
      → IsFinal id status ended_at summary (open_job x r now s).1
  unfolding open_job new_job
  open_job-IsFinal x r now s (below, all) =
      let n = s.next_job in
      let inserted = record s { jobs = s.jobs ++ (new_job r now n ∷ []); next_job = n + 1 } in
      let reserved = reserve_all x r.kind now n r.attempts inserted in
      same-IsFinal reserved (note_start r now n reserved) (note_start-SameJobs r now n reserved) (
        same-IsFinal inserted reserved (reserve_all-SameJobs x r.kind now n r.attempts inserted) (
          omega (arith, below),
          All-append (HasEnded id status ended_at summary) s.jobs (new_job r now n ∷ []) all
              ((λ same. absurd (omega (arith, below, same))), tt),
        ))

  delete_jobs-IsFinal :
      (gone : Job → Bool) (s : Store)
      → IsFinal id status ended_at summary s
      → IsFinal id status ended_at summary (delete_jobs gone s).1
  unfolding delete_jobs
  delete_jobs-IsFinal gone s (below, all) =
      (below, keep_where-All (HasEnded id status ended_at summary) (λ j. not (gone j)) s.jobs all)

  finish-IsFinal :
      (x : Texts) (other : ℕ) (new : Status) (given : Option Summary) (now : ℕ) (s : Store)
      → IsFinal id status ended_at summary s
      → IsFinal id status ended_at summary (store_of s (job_finish x other new given now s))
  finish-IsFinal x other new given now s h =
      job_finish-cases (IsFinal id status ended_at summary) x now s h other new given
        (λ j live. close_job-IsFinal x j new given now s h)

  step-IsFinal :
      (x : Texts) (c : Call) (s : Store)
      → IsFinal id status ended_at summary s
      → IsFinal id status ended_at summary (step x c s)
  unfolding job_start job_finish finish_found job_mark_stale jobs_mark_all_running_stale
      jobs_mark_stale jobs_delete_failed jobs_prune job_set_log_file set_log
  step-IsFinal x (start r now) s h =
      job_start-cases (IsFinal id status ended_at summary) x now s h r
        (open_job-IsFinal x r now s h)
  step-IsFinal x (finish other new given now) s h = finish-IsFinal x other new given now s h
  step-IsFinal x (mark_stale other reason now) s h =
      mark_lost-IsFinal (λ j. j.id == other) x reason now s h
  step-IsFinal x (mark_all_stale kinds reason now) s h =
      mark_lost-IsFinal (of_kinds kinds) x reason now s h
  step-IsFinal x (mark_old_stale age kind reason now) s h =
      mark_lost-IsFinal
        (λ j. ltb (j.started_at + max 60 age * second) now && (is_empty kind || str_eq j.kind kind))
        x reason now s h
  step-IsFinal x (delete_failed is_warning) s h =
      delete_jobs-IsFinal (λ j. is_failed j.status && not (is_warning j)) s h
  step-IsFinal x (prune days keep now) s h =
      delete_jobs-IsFinal
        (λ j.
          not (is_running j.status)
          && ltb (j.started_at + max 1 days * day) now
          && not (any_where (λ n. n == j.id) (newest_ids keep s.jobs)))
        s h
  step-IsFinal x (set_log_file other path) s (below, all) = (
    below,
    All-map (HasEnded id status ended_at summary) (HasEnded id status ended_at summary)
        (set_log other path) (λ j h same. ground (arith, h)) s.jobs all,
  )
  step-IsFinal x (stage other new payload now) s h =
      stage-keeps (IsFinal id status ended_at summary) x (λ s is h. h) (finish-IsFinal x) other new
        payload now s h
  step-IsFinal x (apply parse other now) s h =
      apply-keeps (IsFinal id status ended_at summary) x (λ s is h. h) (finish-IsFinal x) parse
        other now s h
  step-IsFinal x (finish_external parse other new payload tries) s h =
      finish_external-keeps (IsFinal id status ended_at summary) x (λ s is h. h) (finish-IsFinal x)
        parse other new payload tries s h
  step-IsFinal x (recover parse now) s h =
      recover-keeps (IsFinal id status ended_at summary) x (λ s is h. h) (finish-IsFinal x) parse
        now s h

-- Whatever is called, a job that has ended keeps its status, its time and its summary for as long as
-- it is not deleted, and its number is not given to another job.
pub run-IsFinal :
    (x : Texts) (cs : List Call) (s : Store) (id : ℕ) (status : Status) (ended_at : Option ℕ)
    (summary : Option String)
    → is_running status ≡ false
    → IsFinal id status ended_at summary s
    → IsFinal id status ended_at summary (run x cs s)
run-IsFinal x [] s id status ended_at summary final h = h
run-IsFinal x (c ∷ cs) s id status ended_at summary final h =
    run-IsFinal x cs (step x c s) id status ended_at summary final
      (step-IsFinal id status ended_at summary final x c s h)
