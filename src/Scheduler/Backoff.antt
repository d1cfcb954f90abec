-- ===== src/Scheduler/Backoff.antt =====
-- The retry of a failed job of app/jobs/scheduler.py.
use rclone.Throttle.{second}
use rclone.Scheduler.{
  Cron, Setting, slot_key, due_slot, due_since, due_at, is_valid_schedule, within_grace,
}
use rclone.Scheduler.Evaluate.{
  History, skip_same, next_distinct, repeat_slot, check_slot, evaluate_due, scheduled_failure,
  attempt_ts, last_success,
}
use rclone.Base.{
  if-both, ◌||◌, ℕ, ◌+◌, ◌*◌, String, ◌≡◌, refl, inl, inr, Bool, true, false, Option, none, some,
  arith, str_eq, leb, Bool-cases,
}

-- No occurrence has the slot of the one before it.
abbrev pub IsNeverFolded : Cron → String → String → Type 0
IsNeverFolded cron zone schedule =
    (t : ℕ)
    → str_eq (slot_key cron zone schedule (cron.next_after schedule t))
        (slot_key cron zone schedule t)
      ≡ false

next_distinct-never :
    (cron : Cron) (zone schedule : String) (t : ℕ)
    → IsNeverFolded cron zone schedule
    → (next_distinct cron zone schedule (slot_key cron zone schedule t) t).repeated ≡ false
unfolding next_distinct skip_same
next_distinct-never cron zone schedule t never = ground (arith, never t)

module _ (cron : Cron) (p : Setting) (schedule : String) (h : History) (attempt now : ℕ)
    (never : IsNeverFolded cron p.timezone_name schedule) where
  -- A retry that is due starts, whatever the schedule says.
  due_at-retries :
      (t : ℕ) (due : Bool)
      → (check_slot cron p schedule h attempt true (due_at cron p schedule t due) now).due ≡ true
  unfolding due_at check_slot repeat_slot
  due_at-retries t true = ground (arith, next_distinct-never cron p.timezone_name schedule t never)
  due_at-retries t false = ground arith

  due_since-retries :
      (last_run : Option ℕ)
      → (check_slot cron p schedule h attempt true (due_since cron p schedule last_run now) now).due
        ≡ true
  unfolding due_since
  due_since-retries none =
      let t = cron.previous_before schedule (now + second) in
      due_at-retries t (p.run_on_first_tick || within_grace p t now)
  due_since-retries (some r) = let t = cron.next_after schedule r in due_at-retries t (leb t now)

  due_slot-retries :
      (last_run : Option ℕ)
      → (check_slot cron p schedule h attempt true (due_slot cron p schedule last_run now) now).due
        ≡ true
  unfolding due_slot check_slot
  due_slot-retries last_run =
      if-both (λ d. (check_slot cron p schedule h attempt true d now).due ≡ true)
        (is_valid_schedule cron schedule) (due_since cron p schedule last_run now)
        (record { due = false; slot = none; occurrence = none }) (due_since-retries last_run) refl

-- A job that the scheduler ran and that failed is due again exactly when the retry delay has
-- passed since the attempt, whatever its schedule, where no local minute comes back.
pub evaluate_due_retries :
    (cron : Cron) (p : Setting) (schedule : String) (h : History) (now : ℕ)
    → IsNeverFolded cron p.timezone_name schedule
    → scheduled_failure h h.last_result ≡ true
    → (evaluate_due cron p schedule h now).due
      ≡ leb (attempt_ts h.last_result + p.retry_sec * second) now
unfolding evaluate_due
evaluate_due_retries cron p schedule h now never failed =
    let attempt = attempt_ts h.last_result in
    elim (Bool-cases (leb (attempt + p.retry_sec * second) now)) [
      | inl passed ↦
          rw (failed, passed)
            (due_slot-retries cron p schedule h attempt now never (last_success h))
      | inr early ↦ rw (failed, early) refl
    ]
