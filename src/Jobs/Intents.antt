-- ===== src/Jobs/Intents.antt =====
-- How a job that ended outside the database gets its result, in one try (`job_terminal_stage`,
-- `job_terminal_apply` of app/db.py).
use rclone.Jobs.{
  running, error, warning, skipped, cancelled, stale, Status, Job, Store, Intent, Texts, is_running,
  find_job, ok,
}
use rclone.Jobs.Finish.{Summary, Ending}
use rclone.Jobs.Close.{
  job_finish, finish_found, close_job, finish_row, note_end, summary_of, payload_of,
}
use rclone.Jobs.Calls.{SameJobs, store_pair_results-SameJobs}
use rclone.Jobs.Terminal.{
  same_status, find_intent, add_intent, agrees, touch_intent, job_terminal_stage, has_status,
  mark_intent, check_applied, job_terminal_pending, code_of, store_of,
}
use rclone.Base.{
  ℕ, String, ◌≡◌, refl, sym, ap, ◌∙◌, inl, inr, Bool, true, false, not, ◌&&◌, ◌||◌, Option, none,
  some, List, [], ◌∷◌, map, arith, eq_iff, eq_refl, ◌==◌, if◌then◌else◌, is_some, Bool-cases,
  find_where-map, find_where-append, any_where,
}

-- The row runs, or has ended with this status.
abbrev pub is_ready : Status → Option Job → Bool
is_ready status none = false
is_ready status (some j) = is_running j.status || same_status j.status status

-- No intent was kept, or this one.
abbrev pub accepts : Status → String → Option Intent → Bool
accepts status payload none = true
accepts status payload (some i) = agrees status payload (some i)

abbrev pub IsReady : ℕ → Status → String → Store → Type 0
IsReady id status payload s =
    (is_ready status (find_job id s.jobs) ≡ true)
    × (accepts status payload (find_intent id s.intents) ≡ true)

abbrev pub HasIntent : ℕ → Status → String → List Intent → Type 0
HasIntent id status payload is =
    (i : Intent) × (find_intent id is ≡ some i) × (i.status ≡ status) × (i.summary_json ≡ payload)

eq_same : (n : ℕ) → (n == n) ≡ true
eq_same n = ground arith

abbrev status_of : ℕ → Status
status_of n =
    if n == 0
    then running
    else if n == 1
    then ok
    else if n == 2
    then error
    else if n == 3
    then warning
    else if n == 4
    then skipped
    else if n == 5
    then cancelled
    else stale

status_of-code_of : (a : Status) → status_of (code_of a) ≡ a
status_of-code_of running = refl
status_of-code_of ok = refl
status_of-code_of error = refl
status_of-code_of warning = refl
status_of-code_of skipped = refl
status_of-code_of cancelled = refl
status_of-code_of stale = refl

same_status-eq : (a b : Status) → same_status a b ≡ true → a ≡ b
same_status-eq a b h =
    let codes : code_of a ≡ code_of b = ground (arith, h) in
    sym (status_of-code_of a) ∙ ap status_of codes ∙ status_of-code_of b

close_job-jobs :
    (x : Texts) (j : Job) (status : Status) (given : Option Summary) (now : ℕ) (s : Store)
    → SameJobs
        (record s {
          jobs = map (finish_row j.id status now (payload_of given) (summary_of given)) s.jobs;
        })
        (close_job x j status given now s)
unfolding close_job note_end
close_job-jobs x j status given now s =
    let m = summary_of given in
    let e : Ending = record {
      job_id = j.id;
      job_status = status;
      started_at = j.started_at;
      ended_at = now;
      job_kind = j.kind;
    } in
    store_pair_results-SameJobs x e m
      (record s { jobs = map (finish_row j.id status now (payload_of given) m) s.jobs })

finish_row-id :
    (id n : ℕ) (status : Status) (now : ℕ) (payload : Option String) (m : Summary) (j : Job)
    → ((finish_row n status now payload m j).id == id) ≡ (j.id == id)
unfolding finish_row
finish_row-id id n status now payload m j = ground arith

finish_row-status :
    (status : Status) (now : ℕ) (payload : Option String) (m : Summary) (j : Job)
    → is_running j.status ≡ true
    → (finish_row j.id status now payload m j).status ≡ status
unfolding finish_row
finish_row-status status now payload m j live = ground (arith, live)

-- The row of a running job once it is closed.
close_job-find :
    (x : Texts) (j : Job) (id : ℕ) (status : Status) (given : Option Summary) (now : ℕ) (s : Store)
    → find_job id s.jobs ≡ some j
    → is_running j.status ≡ true
    → has_status status (find_job id (close_job x j status given now s).jobs) ≡ true
close_job-find x j id status given now s found live =
    let payload = payload_of given in
    let m = summary_of given in
    let f = finish_row j.id status now payload m in
    let kept =
      find_where-map (λ i. i.id == id) f (finish_row-id id j.id status now payload m) s.jobs j
        found in
    rw
      (
        (close_job-jobs x j status given now s).0,
        kept,
        finish_row-status status now payload m j live,
      )
      (eq_same (code_of status))

-- What `job_finish` leaves of a job that is ready for the status.
module _ (x : Texts) (id : ℕ) (status : Status) (given : Option Summary) (now : ℕ) (s : Store) where
  abbrev pub IsFinished : Option (Bool × Store) → Type 0
  IsFinished none = ⊥
  IsFinished (some (b, t)) =
      (has_status status (find_job id t.jobs) ≡ true) × (t.intents ≡ s.intents)

  finish_found-IsFinished :
      (o : Option Job)
      → find_job id s.jobs ≡ o
      → is_ready status o ≡ true
      → IsFinished (finish_found x o status given now s)
  unfolding finish_found
  finish_found-IsFinished none found ready = ground (arith, ready)
  finish_found-IsFinished (some j) found ready = elim (Bool-cases (is_running j.status)) [
    | inl live ↦ rw live (
      close_job-find x j id status given now s found live,
      (close_job-jobs x j status given now s).2,
    )
    | inr ended ↦ rw ended (ground (arith, found, ready, ended), refl)
  ]

  pub job_finish-IsFinished :
      is_ready status (find_job id s.jobs) ≡ true → IsFinished (job_finish x id status given now s)
  unfolding job_finish
  job_finish-IsFinished ready = finish_found-IsFinished (find_job id s.jobs) refl ready

touch_intent-id :
    (id now : ℕ) (i : Intent) → ((touch_intent id now i).job_id == id) ≡ (i.job_id == id)
unfolding touch_intent
touch_intent-id id now i = ground arith

-- The intent that is kept when a try begins.
pub add_intent-HasIntent :
    (id : ℕ) (status : Status) (payload : String) (now : ℕ) (o : Option Intent) (is : List Intent)
    → find_intent id is ≡ o
    → accepts status payload o ≡ true
    → HasIntent id status payload (add_intent id status payload now is)
unfolding add_intent
add_intent-HasIntent id status payload now none is found agree =
    let i : Intent = record {
      job_id = id;
      status = status;
      summary_json = payload;
      created_at = now;
      updated_at = now;
      applied_at = none;
    } in
    (i, rw found (find_where-append (λ j. j.job_id == id) is i found (eq_same id)), refl, refl)
add_intent-HasIntent id status payload now (some i) is found agree = (
  i,
  rw found found,
  same_status-eq i.status status (ground (arith, agree)),
  ground (arith, agree, eq_iff i.summary_json payload),
)

pub touch-HasIntent :
    (id : ℕ) (status : Status) (payload : String) (now : ℕ) (is : List Intent)
    → HasIntent id status payload is
    → HasIntent id status payload (map (touch_intent id now) is)
unfolding touch_intent
touch-HasIntent id status payload now is (i, found, same, text) = (
  touch_intent id now i,
  find_where-map (λ j. j.job_id == id) (touch_intent id now) (touch_intent-id id now) is i found,
  ground (arith, same),
  ground (arith, text),
)

HasIntent-agrees :
    (id : ℕ) (status : Status) (payload : String) (is : List Intent)
    → HasIntent id status payload is
    → agrees status payload (find_intent id is) ≡ true
HasIntent-agrees id status payload is (i, found, same, text) =
    rw (found, same, text) (ground (arith, eq_same (code_of status), eq_refl payload))

ready-found : (status : Status) (o : Option Job) → is_ready status o ≡ true → is_some o ≡ true
ready-found status none ready = ground (arith, ready)
ready-found status (some j) ready = refl

-- What a try keeps before it ends the job.
abbrev pub staged : ℕ → Status → String → ℕ → Store → Store
staged id status payload now s = record s {
  intents = map (touch_intent id now) (add_intent id status payload now s.intents);
}

pub job_terminal_stage-staged :
    (id : ℕ) (status : Status) (payload : String) (now : ℕ) (s : Store)
    → is_running status ≡ false
    → IsReady id status payload s
    → job_terminal_stage id status payload now s ≡ some (staged id status payload now s)
unfolding job_terminal_stage
job_terminal_stage-staged id status payload now s final (ready, agree) =
    rw
      (
        final,
        ready-found status (find_job id s.jobs) ready,
        HasIntent-agrees id status payload (add_intent id status payload now s.intents) (
            add_intent-HasIntent id status payload now (find_intent id s.intents) s.intents refl
              agree),
      )
      refl

or_true : (a b : Bool) → b ≡ true → (a || b) ≡ true
or_true a b h = ground (arith, h)

marked-pending :
    (id now : ℕ) (is : List Intent)
    → any_where (λ i. i.job_id == id && not (is_some i.applied_at)) (map (mark_intent id now) is)
      ≡ false
unfolding mark_intent
marked-pending id now [] = refl
marked-pending id now (i ∷ is) = ground (arith, marked-pending id now is)

pub staged-HasIntent :
    (id : ℕ) (status : Status) (payload : String) (now : ℕ) (s : Store)
    → IsReady id status payload s
    → HasIntent id status payload (staged id status payload now s).intents
staged-HasIntent id status payload now s (ready, agree) =
    touch-HasIntent id status payload now (add_intent id status payload now s.intents)
      (add_intent-HasIntent id status payload now (find_intent id s.intents) s.intents refl agree)

pub HasIntent-accepts :
    (id : ℕ) (status : Status) (payload : String) (is : List Intent)
    → HasIntent id status payload is
    → accepts status payload (find_intent id is) ≡ true
HasIntent-accepts id status payload is (i, found, same, text) =
    rw (found, same, text) (ground (arith, eq_same (code_of status), eq_refl payload))

has_status-is_ready :
    (status : Status) (o : Option Job) → has_status status o ≡ true → is_ready status o ≡ true
has_status-is_ready status none h = h
has_status-is_ready status (some j) h =
    or_true (is_running j.status) (same_status j.status status) h

pub store_of-IsReady :
    (x : Texts) (id : ℕ) (status : Status) (payload : String) (given : Option Summary) (now : ℕ)
    (s : Store) (o : Option (Bool × Store))
    → IsFinished x id status given now s o
    → HasIntent id status payload s.intents
    → IsReady id status payload (store_of s o)
store_of-IsReady x id status payload given now s none h kept = absurd h
store_of-IsReady x id status payload given now s (some (b, t)) (has, same) kept = (
  has_status-is_ready status (find_job id t.jobs) has,
  rw same (HasIntent-accepts id status payload s.intents kept),
)

abbrev pub IsApplied : ℕ → Status → Option (Bool × Store) → Type 0
IsApplied id status none = ⊥
IsApplied id status (some (b, t)) =
    (b ≡ true)
    × (has_status status (find_job id t.jobs) ≡ true)
    × (job_terminal_pending id t ≡ false)

pub check_applied-IsApplied :
    (x : Texts) (id : ℕ) (status : Status) (given : Option Summary) (now : ℕ) (s : Store)
    (o : Option (Bool × Store))
    → IsFinished x id status given now s o
    → IsApplied id status (check_applied id status now o)
unfolding check_applied job_terminal_pending
check_applied-IsApplied x id status given now s none h = h
check_applied-IsApplied x id status given now s (some (b, t)) (has, same) =
    rw (or_true b (has_status status (find_job id t.jobs)) has)
      (refl, has, marked-pending id now t.intents)
