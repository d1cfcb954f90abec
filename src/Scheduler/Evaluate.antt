-- ===== src/Scheduler/Evaluate.antt =====
-- The decision on a job with its history (`_evaluate_due` of app/jobs/scheduler.py): the backoff
-- after a failure, and slots that were attempted already.
use Prim.Native.String.{◌++◌ as append_text}
use rclone.Throttle.{second}
use rclone.Scheduler.{Cron, Setting, Due, slot_key, due_slot}
use rclone.Base.{
  ℕ, zero, suc, ◌+◌, ◌*◌, String, Bool, true, false, not, ◌&&◌, ◌||◌, Option, none, some, str_eq,
  ltb, leb, ◌==◌, if◌then◌else◌, is_some, is_empty, or_else,
}

-- The dictionary `summary` or `pair` of a result.
pub record Context : Type 0 where
  pub trigger : String
  pub scheduled_slot : String

-- A stored result. A missing time is 0, a missing text is empty; `summary` and `pair` are `none`
-- where they are missing, empty or no dictionary. `source` is the text of the job's id, or of the
-- time of the attempt where that is missing.
pub record Attempt : Type 0 where
  pub ended_at : ℕ
  pub started_at : ℕ
  pub ok : Bool
  pub trigger : String
  pub definition_id : String
  pub scheduled_slot : String
  pub source : String
  pub summary : Option Context
  pub pair : Option Context

-- `success_ended_at` is the time at which the last success ended, 0 where there is none.
pub record History : Type 0 where
  pub success_ended_at : ℕ
  pub last_result : Option Attempt

abbrev pub or_time : ℕ → ℕ → ℕ
or_time a b = if a == 0 then b else a

abbrev pub last_success : History → Option ℕ
last_success h = if h.success_ended_at == 0 then none else some h.success_ended_at

abbrev attempted_at : Attempt → ℕ
attempted_at a = or_time a.ended_at a.started_at

-- The time of the last attempt, 0 where there is none.
abbrev pub attempt_ts : Option Attempt → ℕ
attempt_ts none = 0
attempt_ts (some a) = attempted_at a

abbrev first_context : Option Context → Option Context → Context
first_context (some c) _ = c
first_context none (some c) = c
first_context none none = record { trigger = ""; scheduled_slot = "" }

abbrev pub context : Attempt → Context
context a = first_context a.summary a.pair

abbrev pub is_by_scheduler : Attempt → Bool
is_by_scheduler a =
    str_eq a.trigger "scheduler"
    || str_eq (context a).trigger "scheduler"
    || not (is_empty a.definition_id) && not (is_empty a.scheduled_slot)

-- The last attempt was the scheduler's, failed, and is newer than the last success.
unfoldable pub scheduled_failure : History → Option Attempt → Bool
scheduled_failure h none = false
scheduled_failure h (some a) =
    not a.ok && is_by_scheduler a && ltb h.success_ended_at (attempted_at a)

abbrev pub previous_slot : Option Attempt → String
previous_slot none = ""
previous_slot (some a) = or_else (context a).scheduled_slot a.scheduled_slot

-- The next occurrence whose slot differs, and the last one with the slot before it.
pub record Distinct : Type 0 where
  pub next_at : ℕ
  pub latest_same : ℕ
  pub repeated : Bool

-- The loop over the occurrences with one local time, `range(3)`.
unfoldable pub skip_same : Cron → String → String → String → ℕ → Distinct → Distinct
unfolding slot_key
skip_same cron zone schedule slot zero d = d
skip_same cron zone schedule slot (suc n) d =
    let rest = skip_same cron zone schedule slot n (record {
      next_at = cron.next_after schedule d.next_at;
      latest_same = d.next_at;
      repeated = true;
    }) in
    if str_eq (slot_key cron zone schedule d.next_at) slot then rest else d

unfoldable pub next_distinct : Cron → String → String → String → ℕ → Distinct
unfolding skip_same
next_distinct cron zone schedule slot scheduled_at = skip_same cron zone schedule slot 3 (record {
  next_at = cron.next_after schedule scheduled_at;
  latest_same = scheduled_at;
  repeated = false;
})

-- What `_evaluate_due` returns; `none` where the dictionary has no such key or None.
pub record Decision : Type 0 where
  pub due : Bool
  pub last_run : Option ℕ
  pub last_attempt : Option ℕ
  pub scheduled_at : Option ℕ
  pub scheduled_slot : Option String
  pub reason : Option String
  pub retry_at : Option ℕ

abbrev pub backoff : Setting → History → ℕ → Decision
backoff p h attempt = record {
  due = false;
  last_run = last_success h;
  last_attempt = some attempt;
  scheduled_at = none;
  scheduled_slot = none;
  reason = some "retry_backoff";
  retry_at = some (attempt + p.retry_sec * second);
}

abbrev pub retry : Setting → History → Option Attempt → ℕ → Decision
retry p h last attempt = record {
  due = true;
  last_run = last_success h;
  last_attempt = some attempt;
  scheduled_at = none;
  scheduled_slot =
      some (append_text "retry|" (append_text p.history_key (append_text "|" (source_of last))));
  reason = some "retry_after_failure";
  retry_at = none;
}
  where
    source_of : Option Attempt → String
    source_of none = ""
    source_of (some a) = a.source

abbrev pub already_attempted : History → ℕ → ℕ → String → Decision
already_attempted h attempt scheduled_at slot = record {
  due = false;
  last_run = last_success h;
  last_attempt = some attempt;
  scheduled_at = some scheduled_at;
  scheduled_slot = some slot;
  reason = some "slot_already_attempted";
  retry_at = none;
}

abbrev pub by_schedule : History → Due → Decision
by_schedule h d = record {
  due = d.due;
  last_run = last_success h;
  last_attempt = none;
  scheduled_at = d.occurrence;
  scheduled_slot = d.slot;
  reason =
      if not (is_some (last_success h)) && not d.due
      then some "waiting_for_first_schedule"
      else none;
  retry_at = none;
}

-- The end of `_evaluate_due`.
abbrev pub conclude : Setting → History → ℕ → Bool → Due → Decision
conclude p h attempt retry_due d =
    if retry_due then retry p h h.last_result attempt else by_schedule h d

-- The branch for a slot that the last attempt had already.
unfoldable pub repeat_slot :
    Cron → Setting → String → History → ℕ → Bool → ℕ → String → ℕ → Decision
unfolding next_distinct
repeat_slot cron p schedule h attempt retry_due scheduled_at slot now =
    let d = next_distinct cron p.timezone_name schedule slot scheduled_at in
    if retry_due && (not d.repeated || leb (d.latest_same + 60 * second) now)
    then retry p h h.last_result attempt
    else if ltb now d.next_at
    then already_attempted h attempt scheduled_at slot
    else conclude p h attempt retry_due (record {
      due = true;
      slot = some (slot_key cron p.timezone_name schedule d.next_at);
      occurrence = some d.next_at;
    })

unfoldable pub check_slot : Cron → Setting → String → History → ℕ → Bool → Due → ℕ → Decision
unfolding repeat_slot
check_slot cron p schedule h attempt retry_due d now = go d.slot d.occurrence
  where
    go : Option String → Option ℕ → Decision
    go (some slot) (some scheduled_at) =
        if d.due
          && not (is_empty slot)
          && str_eq (previous_slot h.last_result) slot
          && ltb 0 attempt
          && ltb 0 scheduled_at
        then repeat_slot cron p schedule h attempt retry_due scheduled_at slot now
        else conclude p h attempt retry_due d
    go _ _ = conclude p h attempt retry_due d

unfoldable pub evaluate_due : Cron → Setting → String → History → ℕ → Decision
unfolding scheduled_failure due_slot check_slot
evaluate_due cron p schedule h now =
    let attempt = attempt_ts h.last_result in
    let failure = scheduled_failure h h.last_result in
    let retry_due = failure && leb (attempt + p.retry_sec * second) now in
    if failure && not retry_due
    then backoff p h attempt
    else check_slot cron p schedule h attempt retry_due
        (due_slot cron p schedule (last_success h) now) now
