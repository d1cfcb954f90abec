-- ===== src/Scheduler/Examples.antt =====
-- The scheduler of app/jobs/scheduler.py with an hourly schedule, on a clock of four hours.
use Prim.Native.String.{◌++◌ as append_text}
use rclone.Throttle.{second}
use rclone.Scheduler.{
  Cron, Setting, slot_key, canonical, is_valid_schedule, due_slot, due_since, due_at,
}
use rclone.Scheduler.Evaluate.{
  History, Attempt, skip_same, next_distinct, repeat_slot, check_slot, evaluate_due,
  scheduled_failure,
}
use rclone.Scheduler.Slots.{IsCalendar, IsFoldedOnce, is_fresh, evaluate_due_never_repeats}
use rclone.Scheduler.Backoff.{IsNeverFolded, evaluate_due_retries}
use rclone.Base.{
  zero, suc, is_space, ◌<◌, ◌≢◌, ℕ, ◌+◌, ◌-◌, ◌*◌, ◌/◌, ◌%◌, max, String, ◌≡◌, refl, true, false,
  none, some, arith, ◌==◌, if◌then◌else◌, strip, str_eq,
}

abbrev hour : ℕ
hour = 3600 * second

abbrev hour_text : ℕ → String
hour_text n =
    if n == 0 then "00:00" else if n == 1 then "01:00" else if n == 2 then "02:00" else "03:00"

abbrev hourly : Cron
hourly = record {
  is_valid = λ schedule. true;
  next_after = λ schedule t. (t / hour + 1) * hour;
  previous_before = λ schedule t. max hour ((t - 1) / hour * hour);
  wall_time = λ t. hour_text (t / hour % 4);
}

abbrev schedule : String
schedule = " 0  * * * * "

schedule-valid : is_valid_schedule hourly schedule ≡ true
unfolding is_valid_schedule is_space
schedule-valid = refl

schedule-canonical : canonical schedule ≡ "0 * * * *"
unfolding canonical strip is_space
schedule-canonical = refl

hourly-IsCalendar : IsCalendar hourly schedule
hourly-IsCalendar = record { later = λ t. omega arith; positive = λ t. omega arith }

abbrev key : ℕ → String
key n =
    append_text "v1|" (
      append_text "UTC" (append_text "|" (append_text "0 * * * *" (append_text "|" (hour_text n)))))

not_below_four : (a : ℕ) → ¬ (suc (suc (suc (suc a))) < 4)
not_below_four a h = omega (arith, h)

keys-differ : (a b : ℕ) → a < 4 → b < 4 → a ≢ b → str_eq (key a) (key b) ≡ false
keys-differ zero zero ha hb h = absurd (h refl)
keys-differ zero (suc zero) ha hb h = refl
keys-differ zero (suc (suc zero)) ha hb h = refl
keys-differ zero (suc (suc (suc zero))) ha hb h = refl
keys-differ (suc zero) zero ha hb h = refl
keys-differ (suc zero) (suc zero) ha hb h = absurd (h refl)
keys-differ (suc zero) (suc (suc zero)) ha hb h = refl
keys-differ (suc zero) (suc (suc (suc zero))) ha hb h = refl
keys-differ (suc (suc zero)) zero ha hb h = refl
keys-differ (suc (suc zero)) (suc zero) ha hb h = refl
keys-differ (suc (suc zero)) (suc (suc zero)) ha hb h = absurd (h refl)
keys-differ (suc (suc zero)) (suc (suc (suc zero))) ha hb h = refl
keys-differ (suc (suc (suc zero))) zero ha hb h = refl
keys-differ (suc (suc (suc zero))) (suc zero) ha hb h = refl
keys-differ (suc (suc (suc zero))) (suc (suc zero)) ha hb h = refl
keys-differ (suc (suc (suc zero))) (suc (suc (suc zero))) ha hb h = absurd (h refl)
keys-differ (suc (suc (suc (suc a)))) b ha hb h = absurd (not_below_four a ha)
keys-differ a (suc (suc (suc (suc b)))) ha hb h = absurd (not_below_four b hb)

slot_key-hourly : (t : ℕ) → slot_key hourly "UTC" schedule t ≡ key (t / hour % 4)
unfolding slot_key canonical strip is_space
slot_key-hourly t = refl

hourly-IsFoldedOnce : IsFoldedOnce hourly "UTC" schedule
hourly-IsFoldedOnce t =
    let u = ((t / hour + 1) * hour / hour + 1) * hour in
    rw (slot_key-hourly u, slot_key-hourly t)
      (keys-differ (u / hour % 4) (t / hour % 4) (omega arith) (omega arith)
        (λ same. omega (arith, same)))

hourly-IsNeverFolded : IsNeverFolded hourly "UTC" schedule
hourly-IsNeverFolded t =
    let u = (t / hour + 1) * hour in
    rw (slot_key-hourly u, slot_key-hourly t)
      (keys-differ (u / hour % 4) (t / hour % 4) (omega arith) (omega arith)
        (λ same. omega (arith, same)))

abbrev setting : Setting
setting = record {
  history_key = "jobdef:id:1";
  timezone_name = "UTC";
  retry_sec = 1800;
  grace_minutes = 15;
  run_on_first_tick = false;
}

-- The run at one o'clock failed after a minute.
abbrev failed_run : Attempt
failed_run = record {
  ended_at = hour + 60 * second;
  started_at = hour;
  ok = false;
  trigger = "scheduler";
  definition_id = "1";
  scheduled_slot = "v1|UTC|0 * * * *|01:00";
  source = "7";
  summary = none;
  pair = none;
}

abbrev history : History
history = record { success_ended_at = 10 * second; last_result = some failed_run }

evaluate_due_retries_example :
    (evaluate_due hourly setting schedule history (hour + 1900 * second)).due ≡ true
unfolding scheduled_failure
evaluate_due_retries_example =
    evaluate_due_retries hourly setting schedule history (hour + 1900 * second) hourly-IsNeverFolded
      refl

-- A run by hand at one o'clock took the slot, and the next is the one of two o'clock.
abbrev manual_run : Attempt
manual_run = record failed_run { trigger = "manual"; definition_id = "" }

abbrev manual_history : History
manual_history = record { success_ended_at = 10 * second; last_result = some manual_run }

evaluate_due_never_repeats_example :
    is_fresh "v1|UTC|0 * * * *|01:00"
      (evaluate_due hourly setting schedule manual_history (2 * hour + second)).scheduled_slot
    ≡ true
unfolding evaluate_due scheduled_failure due_slot due_since due_at is_valid_schedule check_slot
    repeat_slot next_distinct skip_same slot_key canonical strip is_space
evaluate_due_never_repeats_example =
    evaluate_due_never_repeats hourly setting schedule manual_history (2 * hour + second)
      hourly-IsCalendar hourly-IsFoldedOnce (omega arith) refl refl

same_slot_waits :
    (evaluate_due hourly setting schedule manual_history (hour + 120 * second)).reason
    ≡ some "slot_already_attempted"
unfolding evaluate_due scheduled_failure due_slot due_since due_at is_valid_schedule check_slot
    repeat_slot next_distinct skip_same slot_key canonical strip is_space
same_slot_waits = refl
