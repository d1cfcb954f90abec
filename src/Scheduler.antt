-- ===== src/Scheduler.antt =====
-- When a job is due by its cron schedule and its history (app/jobs/scheduler.py).
-- Times are microseconds since the epoch; the code's floats count seconds. The packages croniter
-- and zoneinfo are the argument `Cron`.
pub mod Evaluate
pub mod Slots
pub mod Backoff
mod Examples
use Prim.Native.Char.{code}
use Prim.Native.String.{◌++◌ as append_text}
use rclone.Throttle.{second}
use rclone.Base.{
  ℕ, ◌+◌, ◌*◌, max, String, Bool, false, not, ◌&&◌, ◌||◌, Option, none, some, [], ◌∷◌, leb, ◌==◌,
  if◌then◌else◌, is_empty, is_space, strip,
}

-- What the code uses of croniter and zoneinfo, in one time zone: whether an expression is valid,
-- the first occurrence after a time, the last before it, and the local time down to the minute.
pub record Cron : Type 0 where
  pub is_valid : String → Bool
  pub next_after : String → ℕ → ℕ
  pub previous_before : String → ℕ → ℕ
  pub wall_time : ℕ → String

abbrev starts_with_space : String → Bool
starts_with_space String.[] = false
starts_with_space (String.◌∷◌ c s) = is_space (code c)

squeeze : String → String
squeeze String.[] = String.[]
squeeze (String.◌∷◌ c s) =
    let rest = squeeze s in
    let kept = if starts_with_space s then rest else append_text " " rest in
    if is_space (code c) then kept else String.◌∷◌ c rest

-- `len(text.split())`
fields : String → ℕ
fields String.[] = 0
fields (String.◌∷◌ c s) =
    (if not (is_space (code c)) && (is_empty s || starts_with_space s) then 1 else 0) + fields s

-- Only expressions of five fields, down to the minute, are allowed.
unfoldable pub is_valid_schedule : Cron → String → Bool
unfolding fields
is_valid_schedule cron schedule = fields schedule == 5 && cron.is_valid schedule

-- `" ".join(schedule.split())`
unfoldable pub canonical : String → String
unfolding squeeze
canonical schedule = squeeze (strip schedule)

unfoldable pub slot_key : Cron → String → String → ℕ → String
unfolding canonical
slot_key cron timezone_name schedule occurrence = append_text "v1|" (
    append_text timezone_name (
      append_text "|"
        (append_text (canonical schedule) (append_text "|" (cron.wall_time occurrence)))))

-- The settings that `_evaluate_due` is called with.
pub record Setting : Type 0 where
  pub history_key : String
  pub timezone_name : String
  pub retry_sec : ℕ
  pub grace_minutes : ℕ
  pub run_on_first_tick : Bool

-- Whether the schedule is due, its slot if it is, and the occurrence.
pub record Due : Type 0 where
  pub due : Bool
  pub slot : Option String
  pub occurrence : Option ℕ

unfoldable pub due_at : Cron → Setting → String → ℕ → Bool → Due
unfolding slot_key
due_at cron p schedule occurrence due = record {
  due = due;
  slot = if due then some (slot_key cron p.timezone_name schedule occurrence) else none;
  occurrence = some occurrence;
}

abbrev pub within_grace : Setting → ℕ → ℕ → Bool
within_grace p occurrence now =
    leb occurrence now && leb now (occurrence + max 1 p.grace_minutes * 60 * second)

unfoldable pub due_since : Cron → Setting → String → Option ℕ → ℕ → Due
unfolding due_at
due_since cron p schedule none now =
    let occurrence = cron.previous_before schedule (now + second) in
    due_at cron p schedule occurrence (p.run_on_first_tick || within_grace p occurrence now)
due_since cron p schedule (some last_run) now =
    let occurrence = cron.next_after schedule last_run in
    due_at cron p schedule occurrence (leb occurrence now)

unfoldable pub due_slot : Cron → Setting → String → Option ℕ → ℕ → Due
unfolding due_since is_valid_schedule
due_slot cron p schedule last_run now =
    if is_valid_schedule cron schedule
    then due_since cron p schedule last_run now
    else record { due = false; slot = none; occurrence = none }

unfoldable pub is_due : Cron → Setting → String → Option ℕ → ℕ → Bool
unfolding due_slot
is_due cron p schedule last_run now = (due_slot cron p schedule last_run now).due
