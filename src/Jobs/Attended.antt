-- ===== src/Jobs/Attended.antt =====
-- No attempt is left open by a job that has ended (`pair_runs` and `jobs` of app/db.py).
use rclone.Jobs.Settled.{stage-keeps, apply-keeps, finish_external-keeps, recover-keeps}
use rclone.Jobs.Terminal.{store_of}
use rclone.Jobs.Endings.{
  is_live, live, note_stale-runs, note_start-runs, store_pair_results-AllIn, except_all-map,
  end_attempts_all-AllIn, after,
}
use rclone.Jobs.{Status, Job, Store, Texts, is_running, stale}
use rclone.Jobs.Attempts.{OpenIn, AllIn, except_all, weaken, reserve_all-AllIn}
use rclone.Jobs.Calls.{
  reserve_all-SameJobs, note_start-SameJobs, store_pair_results-SameJobs, end_attempts_all-SameJobs,
  note_stale-SameJobs, Call, start, finish, mark_stale, mark_all_stale, mark_old_stale,
  delete_failed, prune, set_log_file, stage, apply, finish_external, recover, set_log,
  job_set_log_file, step, run, job_start-cases, job_finish-cases,
}
use rclone.Jobs.Start.{Request, reserve_all, note_start, open_job, new_job}
use rclone.Jobs.Finish.{Summary, Ending}
use rclone.Jobs.Close.{
  end_attempts_all, store_pair_results, close_job, finish_row, summary_of, payload_of, note_end,
  job_finish,
}
use rclone.Jobs.Stale.{
  mark_lost, stale_row, note_stale, delete_jobs, of_kinds, is_failed, newest_ids, job_mark_stale,
  jobs_mark_all_running_stale, jobs_mark_stale, jobs_delete_failed, jobs_prune,
}
use rclone.Throttle.{second, day}
use rclone.Base.{
  ℕ, ◌+◌, ◌*◌, max, String, ◌≡◌, refl, ◌∙◌, Bool, true, false, not, ◌&&◌, ◌||◌, Option, some, List,
  [], ◌∷◌, ◌++◌, map, arith, str_eq, ltb, ◌==◌, All, any_where, keep_where, is_empty, any_where-map,
  any_where-append, any_where-keep_where, keep_where-All,
}

-- Each open attempt belongs to a job that runs.
abbrev pub IsAttended : Store → Type 0
IsAttended s = All (OpenIn (live s.jobs)) s.runs

-- The attempts are those of one store, the jobs those of another.
attend :
    (L : ℕ → Bool) (js : List Job) (t : Store)
    → AllIn L t
    → t.jobs ≡ js
    → ((n : ℕ) → L n ≡ true → live js n ≡ true)
    → IsAttended t
attend L js t h same sub = rw same (weaken L (live js) sub t.runs h)

grown : (js : List Job) (j : Job) (n : ℕ) → live js n ≡ true → live (js ++ (j ∷ [])) n ≡ true
grown js j n there = rw (any_where-append (is_live n) js (j ∷ []), there) refl

added : (js : List Job) (j : Job) → is_running j.status ≡ true → live (js ++ (j ∷ [])) j.id ≡ true
added js j runs = rw (any_where-append (is_live j.id) js (j ∷ []), runs) (ground arith)

finish_row-is_live :
    (status : Status) (now : ℕ) (payload : Option String) (m : Summary) (j : Job) (n : ℕ) (k : Job)
    → (is_running status || not (n == j.id)) ≡ true
    → is_live n k ≡ true
    → is_live n (finish_row j.id status now payload m k) ≡ true
unfolding finish_row
finish_row-is_live status now payload m j n k fine runs = ground (arith, fine, runs)

and_left : (a b : Bool) → (a && b) ≡ true → a ≡ true
and_left a b h = ground (arith, h)

and_right : (a b : Bool) → (a && b) ≡ true → b ≡ true
and_right a b h = ground (arith, h)

finish_row-live :
    (status : Status) (now : ℕ) (payload : Option String) (m : Summary) (j : Job) (n : ℕ)
    (js : List Job)
    → after (live js) status j.id n ≡ true
    → live (map (finish_row j.id status now payload m) js) n ≡ true
finish_row-live status now payload m j n js kept =
    let f = finish_row j.id status now payload m in
    let fine : (is_running status || not (n == j.id)) ≡ true =
      and_left (is_running status || not (n == j.id)) (live js n) kept in
    let there : live js n ≡ true =
      and_right (is_running status || not (n == j.id)) (live js n) kept in
    any_where-map (is_live n) (is_live n) f
      (λ k. finish_row-is_live status now payload m j n k fine) js there

mark_lost-IsAttended :
    (lost : Job → Bool) (x : Texts) (reason : String) (now : ℕ) (s : Store)
    → IsAttended s
    → IsAttended (mark_lost lost x reason now s).1
unfolding mark_lost
mark_lost-IsAttended lost x reason now s h =
    let rows = keep_where (λ j. is_running j.status && lost j) s.jobs in
    let ids = map (λ j. j.id) rows in
    let marked = record s { jobs = map (stale_row lost x reason now) s.jobs } in
    let ended = end_attempts_all x ids stale now (some reason) marked in
    let noted = note_stale now rows ended in
    let all = end_attempts_all-AllIn x stale now (some reason) (live s.jobs) ids marked refl h in
    attend (except_all (live s.jobs) ids) marked.jobs noted
      (rw (note_stale-runs now rows ended) all)
      ((note_stale-SameJobs now rows ended).0
        ∙ (end_attempts_all-SameJobs x ids stale now (some reason) marked).0)
      (λ n kept.
        let spared = except_all-map lost x reason now n s.jobs (live s.jobs) kept in
        spared.1 spared.0)

close_job-IsAttended :
    (x : Texts) (j : Job) (status : Status) (given : Option Summary) (now : ℕ) (s : Store)
    → IsAttended s
    → IsAttended (close_job x j status given now s)
unfolding close_job note_end
close_job-IsAttended x j status given now s h =
    let m = summary_of given in
    let f = finish_row j.id status now (payload_of given) m in
    let ended = record s { jobs = map f s.jobs } in
    let e : Ending = record {
      job_id = j.id;
      job_status = status;
      started_at = j.started_at;
      ended_at = now;
      job_kind = j.kind;
    } in
    attend (after (live s.jobs) status j.id) ended.jobs
      (note_end j status now m (store_pair_results x e m ended))
      (store_pair_results-AllIn (live s.jobs) x e m ended h)
      (store_pair_results-SameJobs x e m ended).0
      (λ n kept. finish_row-live status now (payload_of given) m j n s.jobs kept)

open_job-IsAttended :
    (x : Texts) (r : Request) (now : ℕ) (s : Store)
    → IsAttended s
    → IsAttended (open_job x r now s).1
unfolding open_job new_job
open_job-IsAttended x r now s h =
    let n = s.next_job in
    let jobs = s.jobs ++ (new_job r now n ∷ []) in
    let inserted = record s { jobs = jobs; next_job = n + 1 } in
    let reserved = reserve_all x r.kind now n r.attempts inserted in
    let all =
      reserve_all-AllIn (live jobs) x r.kind now n r.attempts inserted
        (added s.jobs (new_job r now n) refl)
        (weaken (live s.jobs) (live jobs) (λ k there. grown s.jobs (new_job r now n) k there) s.runs
          h) in
    attend (live jobs) jobs (note_start r now n reserved)
      (rw (note_start-runs r now n reserved) all)
      ((note_start-SameJobs r now n reserved).0
        ∙ (reserve_all-SameJobs x r.kind now n r.attempts inserted).0)
      (λ k there. there)

delete_jobs-IsAttended :
    (gone : Job → Bool) (s : Store)
    → ((j : Job) → gone j ≡ true → is_running j.status ≡ false)
    → IsAttended s
    → IsAttended (delete_jobs gone s).1
unfolding delete_jobs
delete_jobs-IsAttended gone s ended h =
    let kept = keep_where (λ j. not (gone j)) s.jobs in
    keep_where-All (OpenIn (live kept)) (λ p. any_where (λ j. j.id == p.job_id) kept) s.runs
      (weaken (live s.jobs) (live kept)
        (λ n there.
          any_where-keep_where (is_live n) (λ j. not (gone j))
            (λ j runs. ground (arith, ended j, runs)) s.jobs there)
        s.runs h)

finish-IsAttended :
    (x : Texts) (other : ℕ) (new : Status) (given : Option Summary) (now : ℕ) (s : Store)
    → IsAttended s
    → IsAttended (store_of s (job_finish x other new given now s))
finish-IsAttended x other new given now s h =
    job_finish-cases IsAttended x now s h other new given
      (λ j live. close_job-IsAttended x j new given now s h)

step-IsAttended : (x : Texts) (c : Call) (s : Store) → IsAttended s → IsAttended (step x c s)
unfolding job_mark_stale jobs_mark_all_running_stale jobs_mark_stale jobs_delete_failed jobs_prune
    job_set_log_file set_log
step-IsAttended x (start r now) s h =
    job_start-cases IsAttended x now s h r (open_job-IsAttended x r now s h)
step-IsAttended x (finish id status given now) s h = finish-IsAttended x id status given now s h
step-IsAttended x (mark_stale id reason now) s h =
    mark_lost-IsAttended (λ j. j.id == id) x reason now s h
step-IsAttended x (mark_all_stale kinds reason now) s h =
    mark_lost-IsAttended (of_kinds kinds) x reason now s h
step-IsAttended x (mark_old_stale age kind reason now) s h =
    mark_lost-IsAttended
      (λ j. ltb (j.started_at + max 60 age * second) now && (is_empty kind || str_eq j.kind kind)) x
      reason now s h
step-IsAttended x (delete_failed is_warning) s h =
    delete_jobs-IsAttended (λ j. is_failed j.status && not (is_warning j)) s
      (λ j gone. ground (arith, gone)) h
step-IsAttended x (prune days keep now) s h =
    delete_jobs-IsAttended
      (λ j.
        not (is_running j.status)
        && ltb (j.started_at + max 1 days * day) now
        && not (any_where (λ n. n == j.id) (newest_ids keep s.jobs)))
      s (λ j gone. ground (arith, gone)) h
step-IsAttended x (set_log_file id path) s h =
    weaken (live s.jobs) (live (map (set_log id path) s.jobs))
      (λ n there.
        any_where-map (is_live n) (is_live n) (set_log id path) (λ j runs. ground (arith, runs))
          s.jobs there)
      s.runs h
step-IsAttended x (stage id status payload now) s h =
    stage-keeps IsAttended x (λ s is h. h) (finish-IsAttended x) id status payload now s h
step-IsAttended x (apply parse id now) s h =
    apply-keeps IsAttended x (λ s is h. h) (finish-IsAttended x) parse id now s h
step-IsAttended x (finish_external parse id status payload tries) s h =
    finish_external-keeps IsAttended x (λ s is h. h) (finish-IsAttended x) parse id status payload
      tries s h
step-IsAttended x (recover parse now) s h =
    recover-keeps IsAttended x (λ s is h. h) (finish-IsAttended x) parse now s h

-- After any calls, an attempt that is open belongs to a job that runs, if this held before: no way
-- of ending or deleting a job leaves an attempt open.
pub run-IsAttended :
    (x : Texts) (cs : List Call) (s : Store) → IsAttended s → IsAttended (run x cs s)
run-IsAttended x [] s h = h
run-IsAttended x (c ∷ cs) s h = run-IsAttended x cs (step x c s) (step-IsAttended x c s h)
