-- ===== src/Jobs/Calls.antt =====
-- Sequences of calls on the rows of jobs of app/db.py, and what none of the parts of a call changes.
use rclone.Jobs.Terminal.{
  Busy, store_of, job_terminal_stage, job_terminal_apply, job_finish_external,
  job_terminal_recover_pending,
}
use rclone.Jobs.Settled.{staged_or}
use rclone.Jobs.{Status, Job, Store, PairRun, Texts, PairResult, is_running, find_job}
use rclone.Jobs.Start.{
  Request, Attempt, Refusal, job_start, reserve, reserve_all, add_run, note_start, enter_scope,
  scope_holder, invalid_kind, open_job,
}
use rclone.Jobs.Finish.{
  Summary, Ending, see, upsert_run, store_pair, store_pairs, store_due, store_dues,
}
use rclone.Jobs.Close.{
  end_run, fails_due, unfinished_status, see_ended, end_attempts, end_attempts_all,
  store_pair_results, job_finish, is_open_run, finish_found, close_job,
}
use rclone.Jobs.Stale.{
  note_stale, job_mark_stale, jobs_mark_all_running_stale, jobs_mark_stale, jobs_delete_failed,
  jobs_prune,
}
use rclone.Runtime.{text_length}
use rclone.Base.{
  if-both, if◌then◌else◌, Bool-cases, ltb, ◌||◌, false, true, keep_where, is_empty, arith, ℕ,
  String, ◌≡◌, refl, ◌∙◌, ◌⊎◌, inl, inr, Bool, Option, none, some, List, [], ◌∷◌, map, ◌==◌,
}

-- The calls that change the rows, with their arguments and their time.
pub data Call : Type 0 where
  start : Request → ℕ → Call
  finish : ℕ → Status → Option Summary → ℕ → Call
  mark_stale : ℕ → String → ℕ → Call
  mark_all_stale : List String → String → ℕ → Call
  mark_old_stale : ℕ → String → String → ℕ → Call
  delete_failed : (Job → Bool) → Call
  prune : ℕ → ℕ → ℕ → Call
  set_log_file : ℕ → String → Call
  stage : ℕ → Status → String → ℕ → Call
  apply : (String → Summary) → ℕ → ℕ → Call
  finish_external : (String → Summary) → ℕ → Status → String → List (Busy × ℕ) → Call
  recover : (String → Summary) → ℕ → Call

-- `UPDATE jobs SET log_file=?`
unfoldable pub set_log : ℕ → String → Job → Job
set_log id path j = if j.id == id then record j { log_file = some path } else j

unfoldable pub job_set_log_file : ℕ → String → Store → Store
unfolding set_log
job_set_log_file id path s = record s { jobs = map (set_log id path) s.jobs }

-- A call that raises changes nothing.
abbrev pub started_or : Store → Refusal ⊎ (ℕ × Store) → Store
started_or s (inl refused) = s
started_or s (inr (id, s')) = s'

abbrev pub step : Texts → Call → Store → Store
step x (start r now) s = started_or s (job_start x r now s)
step x (finish id status given now) s = store_of s (job_finish x id status given now s)
step x (mark_stale id reason now) s = (job_mark_stale x id reason now s).1
step x (mark_all_stale kinds reason now) s = (jobs_mark_all_running_stale x kinds reason now s).1
step x (mark_old_stale age kind reason now) s = (jobs_mark_stale x age kind reason now s).1
step x (delete_failed is_warning) s = (jobs_delete_failed is_warning s).1
step x (prune days keep now) s = (jobs_prune days keep now s).1
step x (set_log_file id path) s = job_set_log_file id path s
step x (stage id status payload now) s = staged_or s (job_terminal_stage id status payload now s)
step x (apply parse id now) s = store_of s (job_terminal_apply x parse id now s)
step x (finish_external parse id status payload tries) s =
    (job_finish_external x parse id status payload tries s).1
step x (recover parse now) s = (job_terminal_recover_pending x parse now s).1

abbrev pub run : Texts → List Call → Store → Store
run x [] s = s
run x (c ∷ cs) s = run x cs (step x c s)

-- The job rows, the number of the next one and the intents are the same.
abbrev pub SameJobs : Store → Store → Type 0
SameJobs s t = (t.jobs ≡ s.jobs) × (t.next_job ≡ s.next_job) × (t.intents ≡ s.intents)

same_trans : (s t u : Store) → SameJobs s t → SameJobs t u → SameJobs s u
same_trans s t u (a, b, c) (a', b', c') = (a' ∙ a, b' ∙ b, c' ∙ c)

reserve-SameJobs :
    (x : Texts) (kind : String) (now id : ℕ) (a : Attempt) (s : Store)
    → SameJobs s (reserve x kind now id a s)
unfolding reserve add_run
reserve-SameJobs x kind now id a s = ground arith

pub reserve_all-SameJobs :
    (x : Texts) (kind : String) (now id : ℕ) (attempts : List Attempt) (s : Store)
    → SameJobs s (reserve_all x kind now id attempts s)
unfolding reserve_all
reserve_all-SameJobs x kind now id [] s = (refl, refl, refl)
reserve_all-SameJobs x kind now id (a ∷ attempts) s =
    let t = reserve x kind now id a s in
    same_trans s t (reserve_all x kind now id attempts t) (reserve-SameJobs x kind now id a s)
      (reserve_all-SameJobs x kind now id attempts t)

pub note_start-SameJobs :
    (r : Request) (now id : ℕ) (s : Store) → SameJobs s (note_start r now id s)
unfolding note_start
note_start-SameJobs r now id s = ground arith

store_pair-SameJobs :
    (x : Texts) (e : Ending) (m : Summary) (p : PairResult) (s : Store)
    → SameJobs s (store_pair x e m p s)
unfolding store_pair upsert_run see
store_pair-SameJobs x e m p s = ground arith

store_pairs-SameJobs :
    (x : Texts) (e : Ending) (m : Summary) (ps : List PairResult) (s : Store)
    → SameJobs s (store_pairs x e m ps s)
unfolding store_pairs
store_pairs-SameJobs x e m [] s = (refl, refl, refl)
store_pairs-SameJobs x e m (p ∷ ps) s =
    let t = store_pair x e m p s in
    same_trans s t (store_pairs x e m ps t) (store_pair-SameJobs x e m p s)
      (store_pairs-SameJobs x e m ps t)

store_due-SameJobs :
    (x : Texts) (e : Ending) (m : Summary) (n : String) (s : Store)
    → SameJobs s (store_due x e m n s)
unfolding store_due upsert_run see
store_due-SameJobs x e m n s = ground arith

store_dues-SameJobs :
    (x : Texts) (e : Ending) (m : Summary) (ns : List String) (s : Store)
    → SameJobs s (store_dues x e m ns s)
unfolding store_dues
store_dues-SameJobs x e m [] s = (refl, refl, refl)
store_dues-SameJobs x e m (n ∷ ns) s =
    let t = store_due x e m n s in
    same_trans s t (store_dues x e m ns t) (store_due-SameJobs x e m n s)
      (store_dues-SameJobs x e m ns t)

see_ended-SameJobs :
    (ended_at : ℕ) (ps : List PairRun) (s : Store) → SameJobs s (see_ended ended_at ps s)
unfolding see_ended see
see_ended-SameJobs ended_at [] s = (refl, refl, refl)
see_ended-SameJobs ended_at (p ∷ ps) s = see_ended-SameJobs ended_at ps (
    see
      (record {
        history_key = p.history_key;
        pair_name = p.pair_name;
        seen_at = ended_at;
        succeeded = false;
        terminal = true;
        success_at = 0;
      })
      s)

end_attempts-SameJobs :
    (x : Texts) (id : ℕ) (status : Status) (ended_at : ℕ) (cause : Option String) (s : Store)
    → SameJobs s (end_attempts x id status ended_at cause s)
unfolding end_attempts
end_attempts-SameJobs x id status ended_at cause s =
    see_ended-SameJobs ended_at (keep_where (is_open_run id) s.runs)
      (record s { runs = map (end_run x id status ended_at cause) s.runs })

pub end_attempts_all-SameJobs :
    (x : Texts) (ids : List ℕ) (status : Status) (ended_at : ℕ) (cause : Option String) (s : Store)
    → SameJobs s (end_attempts_all x ids status ended_at cause s)
unfolding end_attempts_all
end_attempts_all-SameJobs x [] status ended_at cause s = (refl, refl, refl)
end_attempts_all-SameJobs x (id ∷ ids) status ended_at cause s =
    let t = end_attempts x id status ended_at cause s in
    same_trans s t (end_attempts_all x ids status ended_at cause t)
      (end_attempts-SameJobs x id status ended_at cause s)
      (end_attempts_all-SameJobs x ids status ended_at cause t)

pub store_pair_results-SameJobs :
    (x : Texts) (e : Ending) (m : Summary) (s : Store) → SameJobs s (store_pair_results x e m s)
unfolding store_pair_results
store_pair_results-SameJobs x e m s =
    let paired = store_pairs x e m m.pairs s in
    let with_due = if fails_due e.job_status then store_dues x e m m.due paired else paired in
    ground (
      arith,
      store_pairs-SameJobs x e m m.pairs s,
      store_dues-SameJobs x e m m.due paired,
      end_attempts-SameJobs x e.job_id (unfinished_status e.job_status) e.ended_at
          (if is_empty m.error then none else some m.error) with_due,
    )

pub note_stale-SameJobs : (now : ℕ) (js : List Job) (s : Store) → SameJobs s (note_stale now js s)
unfolding note_stale
note_stale-SameJobs now [] s = (refl, refl, refl)
note_stale-SameJobs now (j ∷ js) s = note_stale-SameJobs now js (note_stale now (j ∷ []) s)

-- A start either changes nothing or opens the job, and an end either changes nothing or closes it.
module _ (P : Store → Type 0) (x : Texts) (now : ℕ) (s : Store) (h : P s) where
  enter_scope-cases :
      (r : Request) (o : Option Job)
      → P (open_job x r now s).1
      → P (started_or s (enter_scope x r now s o))
  unfolding enter_scope
  enter_scope-cases r none opened = opened
  enter_scope-cases r (some j) opened = h

  pub job_start-cases :
      (r : Request) → P (open_job x r now s).1 → P (started_or s (job_start x r now s))
  unfolding job_start
  job_start-cases r opened =
      if-both (λ o. P (started_or s o)) (is_empty r.kind || ltb 64 (text_length r.kind))
        (inl invalid_kind)
        (if r.exclusive_scope
          then enter_scope x r now s (scope_holder r.kind s.jobs)
          else inr (open_job x r now s))
        h
        (if-both (λ o. P (started_or s o)) r.exclusive_scope
          (enter_scope x r now s (scope_holder r.kind s.jobs)) (inr (open_job x r now s))
          (enter_scope-cases r (scope_holder r.kind s.jobs) opened) opened)

  finish_found-cases :
      (o : Option Job) (status : Status) (given : Option Summary)
      → ((j : Job) → is_running j.status ≡ true → P (close_job x j status given now s))
      → P (store_of s (finish_found x o status given now s))
  unfolding finish_found
  finish_found-cases none status given closed = h
  finish_found-cases (some j) status given closed = elim (Bool-cases (is_running j.status)) [
    | inl live ↦ rw live (closed j live)
    | inr ended ↦ rw ended h
  ]

  pub job_finish-cases :
      (id : ℕ) (status : Status) (given : Option Summary)
      → ((j : Job) → is_running j.status ≡ true → P (close_job x j status given now s))
      → P (store_of s (job_finish x id status given now s))
  unfolding job_finish
  job_finish-cases id status given closed =
      finish_found-cases (find_job id s.jobs) status given closed
