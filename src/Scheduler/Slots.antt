-- ===== src/Scheduler/Slots.antt =====
-- A slot of app/jobs/scheduler.py is not attempted twice, and none before its time.
use rclone.Scheduler.{
  Cron, Setting, slot_key, due_slot, due_since, due_at, Due, is_valid_schedule, second,
  within_grace,
}
use rclone.Scheduler.Evaluate.{
  History, Decision, next_distinct, repeat_slot, check_slot, previous_slot, skip_same, evaluate_due,
  attempt_ts, scheduled_failure, last_success, backoff,
}
use rclone.Base.{
  if-both, ◌||◌, ℕ, ◌≤◌, String, ◌≡◌, Bool, true, false, not, ◌&&◌, Option, none, some, arith,
  str_eq, eq_iff, is_some, is_empty, ◌<◌, ◌+◌, leb, ◌*◌,
}

-- The decision starts the job at a slot of its schedule.
abbrev pub is_scheduled : Decision → Bool
is_scheduled d = d.due && not (is_some d.reason)

-- The slot of a decision is another than the one before it.
abbrev pub is_fresh : String → Option String → Bool
is_fresh previous none = false
is_fresh previous (some slot) = not (str_eq previous slot)

check_slot-fresh :
    (cron : Cron) (p : Setting) (schedule : String) (h : History) (attempt : ℕ) (retry_due : Bool)
    (slot : String) (scheduled_at now : ℕ)
    → 1 ≤ attempt
    → 1 ≤ scheduled_at
    → is_empty (previous_slot h.last_result) ≡ false
    → str_eq
        (slot_key cron p.timezone_name schedule
          (next_distinct cron p.timezone_name schedule slot scheduled_at).next_at)
        slot
      ≡ false
    → let d =
        check_slot cron p schedule h attempt retry_due
          (record { due = true; slot = some slot; occurrence = some scheduled_at })
          now in
      is_scheduled d ≡ true → is_fresh (previous_slot h.last_result) d.scheduled_slot ≡ true
unfolding check_slot repeat_slot
check_slot-fresh cron p schedule h attempt retry_due slot scheduled_at now tried real had folds
      scheduled =
    let previous = previous_slot h.last_result in
    let key =
      slot_key cron p.timezone_name schedule
        (next_distinct cron p.timezone_name schedule slot scheduled_at).next_at in
    ground (arith, eq_iff previous slot, eq_iff key slot, eq_iff previous key)

-- No two occurrences further on have the slot of one: a local minute comes back at most once, when
-- the clock is set back.
abbrev pub IsFoldedOnce : Cron → String → String → Type 0
IsFoldedOnce cron zone schedule =
    (t : ℕ)
    → str_eq (slot_key cron zone schedule (cron.next_after schedule (cron.next_after schedule t)))
        (slot_key cron zone schedule t)
      ≡ false

next_distinct-differs :
    (cron : Cron) (zone schedule : String) (t : ℕ)
    → IsFoldedOnce cron zone schedule
    → str_eq
        (slot_key cron zone schedule
          (next_distinct cron zone schedule (slot_key cron zone schedule t) t).next_at)
        (slot_key cron zone schedule t)
      ≡ false
unfolding next_distinct skip_same
next_distinct-differs cron zone schedule t folds = ground (arith, folds t)

-- The occurrences that croniter finds are times after 1970, and a search forward ends later.
pub record IsCalendar (cron : Cron) (schedule : String) : Type 0 where
  pub later : (t : ℕ) → t < cron.next_after schedule t
  pub positive : (t : ℕ) → 1 ≤ cron.previous_before schedule t

-- The decision on what the schedule says, `d`, starts no slot again.
abbrev StartsFresh : Cron → Setting → String → History → ℕ → Bool → ℕ → Due → Type 0
StartsFresh cron p schedule h attempt retry_due now d =
    is_scheduled (check_slot cron p schedule h attempt retry_due d now) ≡ true
    → is_fresh (previous_slot h.last_result)
        (check_slot cron p schedule h attempt retry_due d now).scheduled_slot
      ≡ true

module _ (cron : Cron) (p : Setting) (schedule : String) (h : History) (attempt : ℕ)
    (retry_due : Bool) (now : ℕ) (tried : 1 ≤ attempt)
    (had : is_empty (previous_slot h.last_result) ≡ false) (calendar : IsCalendar cron schedule)
    (folds : IsFoldedOnce cron p.timezone_name schedule) where
  due_at-StartsFresh :
      (t : ℕ) (due : Bool)
      → 1 ≤ t
      → StartsFresh cron p schedule h attempt retry_due now (due_at cron p schedule t due)
  unfolding due_at check_slot
  due_at-StartsFresh t true real scheduled =
      check_slot-fresh cron p schedule h attempt retry_due
        (slot_key cron p.timezone_name schedule t) t now tried real had
        (next_distinct-differs cron p.timezone_name schedule t folds) scheduled
  due_at-StartsFresh t false real scheduled = ground (arith, scheduled)

  due_since-StartsFresh :
      (last_run : Option ℕ)
      → StartsFresh cron p schedule h attempt retry_due now (due_since cron p schedule last_run now)
  unfolding due_since
  due_since-StartsFresh none =
      let t = cron.previous_before schedule (now + second) in
      due_at-StartsFresh t (p.run_on_first_tick || within_grace p t now)
        (calendar.positive (now + second))
  due_since-StartsFresh (some r) =
      let t = cron.next_after schedule r in
      due_at-StartsFresh t (leb t now) (omega (arith, calendar.later r))

  due_slot-StartsFresh :
      (last_run : Option ℕ)
      → StartsFresh cron p schedule h attempt retry_due now (due_slot cron p schedule last_run now)
  unfolding due_slot check_slot
  due_slot-StartsFresh last_run =
      if-both (StartsFresh cron p schedule h attempt retry_due now)
        (is_valid_schedule cron schedule) (due_since cron p schedule last_run now)
        (record { due = false; slot = none; occurrence = none }) (due_since-StartsFresh last_run)
        never
    where
      never :
          StartsFresh cron p schedule h attempt retry_due now
            (record { due = false; slot = none; occurrence = none })
      never scheduled = ground (arith, scheduled)

-- A job that is started by its schedule gets another slot than its last attempt had, whatever its
-- history, where the last attempt has a time and a slot and a local minute comes back at most once.
pub evaluate_due_never_repeats :
    (cron : Cron) (p : Setting) (schedule : String) (h : History) (now : ℕ)
    → IsCalendar cron schedule
    → IsFoldedOnce cron p.timezone_name schedule
    → 1 ≤ attempt_ts h.last_result
    → is_empty (previous_slot h.last_result) ≡ false
    → is_scheduled (evaluate_due cron p schedule h now) ≡ true
    → is_fresh (previous_slot h.last_result) (evaluate_due cron p schedule h now).scheduled_slot
      ≡ true
unfolding evaluate_due
evaluate_due_never_repeats cron p schedule h now calendar folds tried had =
    let attempt = attempt_ts h.last_result in
    let failure = scheduled_failure h h.last_result in
    let retry_due = failure && leb (attempt + p.retry_sec * second) now in
    let d =
      check_slot cron p schedule h attempt retry_due (due_slot cron p schedule (last_success h) now)
        now in
    if-both
      (λ e. is_scheduled e ≡ true → is_fresh (previous_slot h.last_result) e.scheduled_slot ≡ true)
      (failure && not retry_due) (backoff p h attempt) d (λ scheduled. cc)
      (due_slot-StartsFresh cron p schedule h attempt retry_due now tried had calendar folds
        (last_success h))
