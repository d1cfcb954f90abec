-- ===== src/Jobs/Scope.antt =====
-- The scopes of running jobs (`job_start` with `exclusive_scope` of app/db.py).
use rclone.Jobs.Settled.{stage-keeps, apply-keeps, finish_external-keeps, recover-keeps}
use rclone.Jobs.Terminal.{store_of}
use rclone.Jobs.{Status, Job, Store, Texts, is_running, stale, in_scope, is_backup_kind}
use rclone.Jobs.Start.{
  Request, job_start, open_job, new_job, reserve_all, note_start, holds_scope, first_of,
  scope_holder, enter_scope, invalid_kind,
}
use rclone.Jobs.Finish.{Summary, Ending}
use rclone.Jobs.Close.{
  close_job, finish_row, store_pair_results, note_end, summary_of, payload_of, end_attempts_all,
  job_finish,
}
use rclone.Throttle.{second, day}
use rclone.Jobs.Stale.{
  of_kinds, is_failed, newest_ids, note_stale, mark_lost, stale_row, job_mark_stale,
  jobs_mark_all_running_stale, jobs_mark_stale, jobs_delete_failed, jobs_prune, delete_jobs,
}
use rclone.Jobs.Calls.{
  job_finish-cases, Call, start, finish, mark_stale, mark_all_stale, mark_old_stale, delete_failed,
  prune, set_log_file, stage, apply, finish_external, recover, set_log, job_set_log_file, step, run,
  SameJobs, reserve_all-SameJobs, note_start-SameJobs, store_pair_results-SameJobs,
  end_attempts_all-SameJobs, note_stale-SameJobs, started_or,
}
use rclone.Base.{
  any_where, ℕ, ◌+◌, ◌*◌, max, String, ◌≡◌, Bool, not, ◌&&◌, ◌||◌, Option, some, List, [], ◌∷◌,
  ◌++◌, map, arith, str_eq, ltb, ◌==◌, All, is_empty, keep_where, ◌≤◌, refl, sym, ap, ◌∙◌, ◌≢◌, inl,
  inr, true, none, eq_iff, if◌then◌else◌, Bool-cases, length, count-keep_where-le, count-map-le,
  count_where, if-both, insert_by, sort_by, count-keep_where, count-append, count_where_same,
}
use rclone.Runtime.{text_length}

-- At most one running job holds the scope of each kind.
abbrev pub IsExclusive : Store → Type 0
IsExclusive s = (kind : String) → count_where (holds_scope kind) s.jobs ≤ 1

-- A call that starts a job claims its scope.
abbrev pub is_exclusive : Call → Bool
is_exclusive (start r now) = r.exclusive_scope
is_exclusive _ = true

class_of :
    (B : String → Bool) (k r o : String)
    → (if B k then B r else str_eq r k) ≡ true
    → (if B k then B o else str_eq o k) ≡ (if B r then B o else str_eq o r)
class_of B k r o h = ground (arith, h, eq_iff r k)

insert_by-first :
    (less : Job → Job → Bool) (j : Job) (js : List Job) → first_of (insert_by less j js) ≢ none
insert_by-first less j [] = ground arith
insert_by-first less j (i ∷ js) = ground arith

sort_by-first :
    (less : Job → Job → Bool) (js : List Job) → first_of (sort_by less js) ≡ none → length js ≡ 0
sort_by-first less [] h = refl
sort_by-first less (j ∷ js) h = absurd (insert_by-first less j (sort_by less js) h)

scope_holder-none :
    (kind : String) (js : List Job)
    → scope_holder kind js ≡ none
    → count_where (holds_scope kind) js ≡ 0
unfolding scope_holder
scope_holder-none kind js h =
    sym (count-keep_where (holds_scope kind) js)
    ∙ sort_by-first (λ a b. ltb b.started_at a.started_at) (keep_where (holds_scope kind) js) h

same-IsExclusive : (s t : Store) → SameJobs s t → IsExclusive s → IsExclusive t
same-IsExclusive s t (jobs, next, intents) h = rw jobs h

still_holds :
    (kind : String) (i j : Job)
    → (i.kind ≡ j.kind) × (is_running i.status ≡ true → is_running j.status ≡ true)
    → holds_scope kind i ≡ true
    → holds_scope kind j ≡ true
unfolding holds_scope
still_holds kind i j (same, runs) hold = ground (arith, same, runs, hold, ap (in_scope kind) same)

in_scope-class : (k r o : String) → in_scope k r ≡ true → in_scope k o ≡ in_scope r o
unfolding in_scope
in_scope-class k r o h = class_of (λ s. is_backup_kind s) k r o h

-- A row changes in place: it keeps its kind, and does not start to run again.
map-IsExclusive :
    (f : Job → Job)
    → ((j : Job)
        → ((f j).kind ≡ j.kind) × (is_running (f j).status ≡ true → is_running j.status ≡ true))
    → (s : Store) → IsExclusive s
    → IsExclusive (record s { jobs = map f s.jobs })
map-IsExclusive f back s h kind = omega (
  arith,
  h kind,
  count-map-le (holds_scope kind) f (λ j. still_holds kind (f j) j (back j)) s.jobs,
)

delete_jobs-IsExclusive :
    (gone : Job → Bool) (s : Store) → IsExclusive s → IsExclusive (delete_jobs gone s).1
unfolding delete_jobs
delete_jobs-IsExclusive gone s h kind =
    omega (arith, h kind, count-keep_where-le (holds_scope kind) (λ j. not (gone j)) s.jobs)

mark_lost-IsExclusive :
    (lost : Job → Bool) (x : Texts) (reason : String) (now : ℕ) (s : Store)
    → IsExclusive s
    → IsExclusive (mark_lost lost x reason now s).1
unfolding mark_lost stale_row
mark_lost-IsExclusive lost x reason now s h =
    let f = stale_row lost x reason now in
    let rows = keep_where (λ j. is_running j.status && lost j) s.jobs in
    let marked = record s { jobs = map f s.jobs } in
    let ended = end_attempts_all x (map (λ j. j.id) rows) stale now (some reason) marked in
    same-IsExclusive ended (note_stale now rows ended) (note_stale-SameJobs now rows ended) (
      same-IsExclusive marked ended
        (end_attempts_all-SameJobs x (map (λ j. j.id) rows) stale now (some reason) marked)
        (map-IsExclusive f (λ j. ground arith) s h))

close_job-IsExclusive :
    (x : Texts) (j : Job) (status : Status) (given : Option Summary) (now : ℕ) (s : Store)
    → IsExclusive s
    → IsExclusive (close_job x j status given now s)
unfolding close_job note_end finish_row
close_job-IsExclusive x j status given now s h =
    let m = summary_of given in
    let f = finish_row j.id status now (payload_of given) m in
    let ended = record s { jobs = map f s.jobs } in
    let e : Ending = record {
      job_id = j.id;
      job_status = status;
      started_at = j.started_at;
      ended_at = now;
      job_kind = j.kind;
    } in
    same-IsExclusive ended (note_end j status now m (store_pair_results x e m ended))
      (store_pair_results-SameJobs x e m ended) (map-IsExclusive f (λ j. ground arith) s h)

-- A row that is added to a scope that nobody holds.
insert-le :
    (r : Request) (now id : ℕ) (kind : String) (js : List Job)
    → count_where (holds_scope r.kind) js ≡ 0
    → count_where (holds_scope kind) js ≤ 1
    → count_where (holds_scope kind) (js ++ (new_job r now id ∷ [])) ≤ 1
unfolding new_job holds_scope
insert-le r now id kind js nobody h = elim (Bool-cases (in_scope kind r.kind)) [
  | inl inside ↦ omega (
    arith,
    nobody,
    count-append (holds_scope kind) js (new_job r now id ∷ []),
    count_where_same (holds_scope kind) (holds_scope r.kind)
        (λ j. ap (λ b. is_running j.status && b) (in_scope-class kind r.kind j.kind inside)) js,
    ap {B = ℕ} (λ b. if b then 1 else 0) inside,
  )
  | inr outside ↦ omega (
    arith,
    h,
    count-append (holds_scope kind) js (new_job r now id ∷ []),
    ap {B = ℕ} (λ b. if b then 1 else 0) outside,
  )
]

open_job-IsExclusive :
    (x : Texts) (r : Request) (now : ℕ) (s : Store)
    → scope_holder r.kind s.jobs ≡ none
    → IsExclusive s
    → IsExclusive (open_job x r now s).1
unfolding open_job
open_job-IsExclusive x r now s free h =
    let n = s.next_job in
    let inserted = record s { jobs = s.jobs ++ (new_job r now n ∷ []); next_job = n + 1 } in
    let reserved = reserve_all x r.kind now n r.attempts inserted in
    same-IsExclusive reserved (note_start r now n reserved) (note_start-SameJobs r now n reserved) (
      same-IsExclusive inserted reserved (reserve_all-SameJobs x r.kind now n r.attempts inserted)
        (λ kind. insert-le r now n kind s.jobs (scope_holder-none r.kind s.jobs free) (h kind)))

enter_scope-IsExclusive :
    (x : Texts) (r : Request) (now : ℕ) (s : Store) (o : Option Job)
    → scope_holder r.kind s.jobs ≡ o
    → IsExclusive s
    → IsExclusive (started_or s (enter_scope x r now s o))
unfolding enter_scope
enter_scope-IsExclusive x r now s none free h = open_job-IsExclusive x r now s free h
enter_scope-IsExclusive x r now s (some j) held h = h

job_start-IsExclusive :
    (x : Texts) (r : Request) (now : ℕ) (s : Store)
    → r.exclusive_scope ≡ true
    → IsExclusive s
    → IsExclusive (started_or s (job_start x r now s))
unfolding job_start
job_start-IsExclusive x r now s exclusive h =
    let entered = enter_scope x r now s (scope_holder r.kind s.jobs) in
    if-both (λ o. IsExclusive (started_or s o)) (is_empty r.kind || ltb 64 (text_length r.kind))
      (inl invalid_kind) (if r.exclusive_scope then entered else inr (open_job x r now s)) h
      (rw exclusive (enter_scope-IsExclusive x r now s (scope_holder r.kind s.jobs) refl h))

finish-IsExclusive :
    (x : Texts) (other : ℕ) (new : Status) (given : Option Summary) (now : ℕ) (s : Store)
    → IsExclusive s
    → IsExclusive (store_of s (job_finish x other new given now s))
finish-IsExclusive x other new given now s h =
    job_finish-cases IsExclusive x now s h other new given
      (λ j live. close_job-IsExclusive x j new given now s h)

step-IsExclusive :
    (x : Texts) (c : Call) (s : Store)
    → is_exclusive c ≡ true
    → IsExclusive s
    → IsExclusive (step x c s)
unfolding job_mark_stale jobs_mark_all_running_stale jobs_mark_stale jobs_delete_failed jobs_prune
    job_set_log_file set_log
step-IsExclusive x (start r now) s claims h = job_start-IsExclusive x r now s claims h
step-IsExclusive x (finish id status given now) s claims h =
    finish-IsExclusive x id status given now s h
step-IsExclusive x (mark_stale id reason now) s claims h =
    mark_lost-IsExclusive (λ j. j.id == id) x reason now s h
step-IsExclusive x (mark_all_stale kinds reason now) s claims h =
    mark_lost-IsExclusive (of_kinds kinds) x reason now s h
step-IsExclusive x (mark_old_stale age kind reason now) s claims h =
    mark_lost-IsExclusive
      (λ j. ltb (j.started_at + max 60 age * second) now && (is_empty kind || str_eq j.kind kind)) x
      reason now s h
step-IsExclusive x (delete_failed is_warning) s claims h =
    delete_jobs-IsExclusive (λ j. is_failed j.status && not (is_warning j)) s h
step-IsExclusive x (prune days keep now) s claims h =
    delete_jobs-IsExclusive
      (λ j.
        not (is_running j.status)
        && ltb (j.started_at + max 1 days * day) now
        && not (any_where (λ n. n == j.id) (newest_ids keep s.jobs)))
      s h
step-IsExclusive x (set_log_file id path) s claims h =
    map-IsExclusive (set_log id path) (λ j. ground arith) s h
step-IsExclusive x (stage id status payload now) s claims h =
    stage-keeps IsExclusive x (λ s is h. h) (finish-IsExclusive x) id status payload now s h
step-IsExclusive x (apply parse id now) s claims h =
    apply-keeps IsExclusive x (λ s is h. h) (finish-IsExclusive x) parse id now s h
step-IsExclusive x (finish_external parse id status payload tries) s claims h =
    finish_external-keeps IsExclusive x (λ s is h. h) (finish-IsExclusive x) parse id status payload
      tries s h
step-IsExclusive x (recover parse now) s claims h =
    recover-keeps IsExclusive x (λ s is h. h) (finish-IsExclusive x) parse now s h

-- If every job is started with `exclusive_scope`, at most one job that runs holds the scope of each
-- kind after any calls, provided this held before.
pub run-IsExclusive :
    (x : Texts) (cs : List Call) (s : Store)
    → All (λ c. is_exclusive c ≡ true) cs
    → IsExclusive s
    → IsExclusive (run x cs s)
run-IsExclusive x [] s claims h = h
run-IsExclusive x (c ∷ cs) s claims h =
    run-IsExclusive x cs (step x c s) claims.1 (step-IsExclusive x c s claims.0 h)
