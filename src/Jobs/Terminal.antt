-- ===== src/Jobs/Terminal.antt =====
-- The result of an action outside the database, kept until the job's row has it
-- (`job_terminal_*`, `job_finish_external` of app/db.py).
use rclone.Jobs.{
  running, ok, error, warning, skipped, cancelled, stale, Status, is_running, Job, Store, Intent,
  Texts, find_job,
}
use rclone.Jobs.Finish.{Summary}
use rclone.Jobs.Close.{job_finish}
use rclone.Base.{
  ℕ, String, Bool, true, false, not, ◌&&◌, ◌||◌, Option, none, some, List, [], ◌∷◌, ◌++◌, map,
  str_eq, ◌==◌, if◌then◌else◌, is_some, any_where, find_where, sort_by, ◌+◌, ltb, keep_where,
}

abbrev pub code_of : Status → ℕ
code_of running = 0
code_of ok = 1
code_of error = 2
code_of warning = 3
code_of skipped = 4
code_of cancelled = 5
code_of stale = 6

abbrev pub same_status : Status → Status → Bool
same_status a b = code_of a == code_of b

abbrev pub find_intent : ℕ → List Intent → Option Intent
find_intent id intents = find_where (λ i. i.job_id == id) intents

-- `INSERT OR IGNORE INTO job_terminal_intents`
unfoldable pub add_intent : ℕ → Status → String → ℕ → List Intent → List Intent
add_intent id status payload now intents =
    if is_some (find_intent id intents)
    then intents
    else intents
      ++ (record {
        job_id = id;
        status = status;
        summary_json = payload;
        created_at = now;
        updated_at = now;
        applied_at = none;
      }
          ∷ [])

abbrev pub agrees : Status → String → Option Intent → Bool
agrees status payload none = false
agrees status payload (some i) = same_status i.status status && str_eq i.summary_json payload

unfoldable pub touch_intent : ℕ → ℕ → Intent → Intent
touch_intent id now i = if i.job_id == id then record i { updated_at = now } else i

-- `none` stands for a status that is not final, a job that is not there, or another result that was
-- kept before. `payload` is the text of the summary.
unfoldable pub job_terminal_stage : ℕ → Status → String → ℕ → Store → Option Store
unfolding add_intent touch_intent
job_terminal_stage id status payload now s =
    let intents = add_intent id status payload now s.intents in
    if is_running status || not (is_some (find_job id s.jobs))
    then none
    else if agrees status payload (find_intent id intents)
    then some (record s { intents = map (touch_intent id now) intents })
    else none

abbrev pub has_status : Status → Option Job → Bool
has_status status none = false
has_status status (some j) = same_status j.status status

abbrev pub applied_or : Option ℕ → ℕ → ℕ
applied_or none now = now
applied_or (some t) now = t

unfoldable pub mark_intent : ℕ → ℕ → Intent → Intent
mark_intent id now i =
    if i.job_id == id
    then record i { applied_at = some (applied_or i.applied_at now); updated_at = now }
    else i

-- The end of `job_terminal_apply`, once `job_finish` has replied.
unfoldable pub check_applied : ℕ → Status → ℕ → Option (Bool × Store) → Option (Bool × Store)
unfolding mark_intent
check_applied id status now none = none
check_applied id status now (some (transitioned, s)) =
    if transitioned || has_status status (find_job id s.jobs)
    then some (true, record s { intents = map (mark_intent id now) s.intents })
    else none

unfoldable pub apply_intent :
    Texts → (String → Summary) → Option Intent → ℕ → ℕ → Store → Option (Bool × Store)
unfolding check_applied
apply_intent x parse none id now s = none
apply_intent x parse (some i) id now s =
    check_applied id i.status now (job_finish x id i.status (some (parse i.summary_json)) now s)

-- `parse` reads a summary from its text. `none` stands for a job without an intent, one that is not
-- there, or one that has ended with another status.
unfoldable pub job_terminal_apply :
    Texts → (String → Summary) → ℕ → ℕ → Store → Option (Bool × Store)
unfolding apply_intent
job_terminal_apply x parse id now s = apply_intent x parse (find_intent id s.intents) id now s

unfoldable pub job_terminal_pending : ℕ → Store → Bool
job_terminal_pending id s = any_where (λ i. i.job_id == id && not (is_some i.applied_at)) s.intents

-- How a try ends: the database is busy before the intent is kept, before the job is ended, or after
-- that and before the intent is marked; or it is not busy.
pub data Busy : Type 0 where
  at_stage at_finish at_mark never : Busy

-- What a try gives: the reply, an exception that is passed on, or a busy database.
pub data Try : Type 0 where
  done : Bool → Try
  raised : Try
  busy : Try

abbrev pub reply_of : Store → Option (Bool × Store) → Try × Store
reply_of s none = (raised, s)
reply_of s (some (b, s')) = (done b, s')

abbrev pub store_of : Store → Option (Bool × Store) → Store
store_of s none = s
store_of s (some (b, s')) = s'

unfoldable pub finish_intent : Texts → (String → Summary) → Option Intent → ℕ → ℕ → Store → Store
finish_intent x parse none id now s = s
finish_intent x parse (some i) id now s =
    store_of s (job_finish x id i.status (some (parse i.summary_json)) now s)

-- What `at_mark` leaves of a try: the job is ended, and its intent is not marked.
unfoldable pub try_staged : Texts → (String → Summary) → Busy → ℕ → ℕ → Store → Try × Store
unfolding job_terminal_apply finish_intent
try_staged x parse at_mark id now s = (
  if is_some (job_terminal_apply x parse id now s) then busy else raised,
  finish_intent x parse (find_intent id s.intents) id now s,
)
try_staged x parse never id now s = reply_of s (job_terminal_apply x parse id now s)
try_staged x parse _ id now s = (busy, s)

unfoldable pub try_from :
    Texts → (String → Summary) → Busy → ℕ → ℕ → Store → Option Store → Try × Store
unfolding try_staged
try_from x parse b id now s none = (raised, s)
try_from x parse b id now s (some s') = try_staged x parse b id now s'

unfoldable pub try_finish :
    Texts → (String → Summary) → Busy → ℕ → Status → String → ℕ → Store → Try × Store
unfolding try_from job_terminal_stage
try_finish x parse at_stage id status payload now s = (busy, s)
try_finish x parse b id status payload now s =
    try_from x parse b id now s (job_terminal_stage id status payload now s)

-- A busy database is asked again.
unfoldable pub retry : (Store → Try × Store) → Try × Store → Try × Store
retry again (busy, s) = again s
retry again (done r, s) = (done r, s)
retry again (raised, s) = (raised, s)

-- The tries of `job_finish_external`, each with its time and with how busy the database is.
unfoldable pub job_finish_external :
    Texts → (String → Summary) → ℕ → Status → String → List (Busy × ℕ) → Store → Try × Store
unfolding try_finish retry
job_finish_external x parse id status payload [] s = (busy, s)
job_finish_external x parse id status payload ((b, now) ∷ tries) s =
    retry (λ s'. job_finish_external x parse id status payload tries s')
      (try_finish x parse b id status payload now s)

abbrev pub counted : Option (Bool × Store) → ℕ × ℕ × List ℕ → ℕ → ℕ × ℕ × List ℕ
counted none (recovered, failed, ids) id = (recovered, failed + 1, ids)
counted (some (true, s)) (recovered, failed, ids) id = (recovered + 1, failed, id ∷ ids)
counted (some (false, s)) totals id = totals

-- The loop over the pending intents; the reply is the number of those that were applied, of those
-- that failed, and the jobs that were applied.
unfoldable pub recover_each :
    Texts → (String → Summary) → ℕ → List ℕ → Store → (ℕ × ℕ × List ℕ) × Store
unfolding job_terminal_apply
recover_each x parse now [] s = ((0, 0, []), s)
recover_each x parse now (id ∷ ids) s =
    let reply = job_terminal_apply x parse id now s in
    let (totals, s') = recover_each x parse now ids (store_of s reply) in
    (counted reply totals id, s')

unfoldable pub job_terminal_recover_pending :
    Texts → (String → Summary) → ℕ → Store → (ℕ × ℕ × List ℕ) × Store
unfolding recover_each
job_terminal_recover_pending x parse now s =
    recover_each x parse now
      (map (λ i. i.job_id)
        (sort_by (λ a b. ltb a.created_at b.created_at)
          (keep_where (λ i. not (is_some i.applied_at)) s.intents)))
      s
