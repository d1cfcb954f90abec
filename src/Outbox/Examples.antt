-- ===== src/Outbox/Examples.antt =====
-- The outbox of app/db.py at concrete calls of two dispatchers.
use rclone.Base.{
  ℕ, ◌*◌, String, ◌≡◌, refl, inr, true, false, Option, none, some, List, [], ◌∷◌, arith, ◌==◌, All,
  strip, any_where, prefix,
}
use rclone.Throttle.{second}
use rclone.Outbox.{push_device_upsert, Device, Status, pending, sending, Entry, Store, empty}
use rclone.Outbox.Queue.{Notice, push_outbox_enqueue, push_outbox_claim_due}
use rclone.Outbox.Finish.{Report, finished, not_owned, settle, push_outbox_finish}
use rclone.Outbox.Invariant.{IsValid}
use rclone.Outbox.Steps.{
  Call, upsert, enqueue, claim_due, finish, step, run, run-IsValid, empty-IsValid,
}
use rclone.Outbox.Kept.{IsKept, run-IsKept}
use rclone.Outbox.Rowids.{find_id}
use rclone.Outbox.Leases.{push_outbox_claim_due-IsLive}
use rclone.Outbox.Claims.{IsClaim, push_outbox_claim_due-IsClaim}
use rclone.Outbox.Outcomes.{push_outbox_finish_refused, push_outbox_finish_settles}
use rclone.Outbox.Dedupe.{push_outbox_enqueue_again}

abbrev notice : Notice
notice = record {
  event = "backup_failed";
  title = "Sicherpfad";
  message = "Details in der App";
  payload_json = "{}";
  dedupe_key = "job:7";
  retention_seconds = 3600;
  device_limit = 128;
}

abbrev uuid : ℕ → String
uuid i = "0d1f"

abbrev calls : List (ℕ × Call)
calls =
    (0, upsert "t1" "production" "2.0" 86400)
    ∷ (second, enqueue notice uuid)
    ∷ (2 * second, claim_due "a" 32 60)
    ∷ (
      3 * second,
      finish 1 "a" (record {
        was_sent = false;
        retry = true;
        retry_delay_seconds = 30;
        error = "HTTP 503";
        max_attempts = 8;
      }),
    )
    ∷ (40 * second, claim_due " b " 32 60)
    ∷ []

run-IsValid_example : IsValid (run calls empty)
run-IsValid_example = run-IsValid calls empty empty-IsValid

abbrev device : Device
device = record {
  token = "t1";
  environment = "production";
  app_version = "2.0";
  created_at = 0;
  updated_at = 0;
  expires_at = 86400 * second;
}

abbrev row : Status → ℕ → ℕ → ℕ → String → Option String → ℕ → Entry
row status attempts next lease owner error updated = record {
  id = 1;
  dedupe_key = "job:7";
  token = "t1";
  environment = "production";
  event = "backup_failed";
  title = "Sicherpfad";
  message = "Details in der App";
  payload_json = "{}";
  status = status;
  attempts = attempts;
  next_attempt_at = next;
  expires_at = 3601 * second;
  lease_until = lease;
  claim_owner = owner;
  last_error = error;
  apns_id = "0d1f";
  created_at = second;
  updated_at = updated;
  sent_at = none;
}

abbrev store : Entry → Store
store e = record { devices = device ∷ []; outbox = e ∷ []; next_id = 2 }

-- The row after the calls: the retry put it off until the second claim.
run-calls :
    run calls empty
    ≡ store (row sending 2 (33 * second) (100 * second) "b" (some "HTTP 503") (40 * second))
unfolding run push_outbox_enqueue push_outbox_claim_due push_outbox_finish push_device_upsert prefix
run-calls = refl

abbrev queued : Entry
queued = row pending 0 second 0 "" none second

abbrev taken : Entry
taken = row sending 1 second (62 * second) "a" none (2 * second)

queued-IsValid : IsValid (store queued)
queued-IsValid = record {
  rows = ((refl, refl, refl), tt);
  rising = (omega arith, tt);
  fresh = (omega arith, tt);
  unique = (refl, tt);
}

taken-IsValid : IsValid (store taken)
taken-IsValid = record {
  rows = ((refl, omega arith, refl), tt);
  rising = (omega arith, tt);
  fresh = (omega arith, tt);
  unique = (refl, tt);
}

push_outbox_claim_due-IsClaim_example :
    All (IsClaim (strip " a ") (62 * second) (2 * second) (store queued)) (taken ∷ [])
unfolding push_outbox_claim_due
push_outbox_claim_due-IsClaim_example =
    push_outbox_claim_due-IsClaim " a " 32 60 (2 * second) (store queued) (store taken) (taken ∷ [])
      queued-IsValid refl

abbrev report : Report
report = record {
  was_sent = false;
  retry = true;
  retry_delay_seconds = 30;
  error = "HTTP 503";
  max_attempts = 8;
}

-- Another dispatcher looks for rows, and reports on one that it does not hold.
run-IsKept_example : IsKept taken (
    run
      ((30 * second, claim_due "b" 32 60) ∷ (31 * second, finish 1 "b" report) ∷ [])
      (store taken))
unfolding strip
run-IsKept_example =
    run-IsKept taken ((30 * second, claim_due "b" 32 60) ∷ (31 * second, finish 1 "b" report) ∷ [])
      (store taken) refl ((omega arith, omega arith, refl), ((omega arith, omega arith, refl), tt))
      taken-IsValid (omega arith, inr refl)

push_outbox_claim_due-IsLive_example :
    (find_id 1 (store taken).outbox ≡ some taken)
    × (any_where {A = Entry} (λ c. c.id == 1) [] ≡ false)
unfolding push_outbox_claim_due
push_outbox_claim_due-IsLive_example =
    push_outbox_claim_due-IsLive "b" 32 60 (30 * second) (store taken) (store taken) [] 1 taken
      taken-IsValid refl refl (refl, omega arith, omega arith)

push_outbox_finish_settles_example :
    (s' : Store) × (push_outbox_finish 1 "a" report (3 * second) (store taken)
      ≡ some (finished pending, s'))
    × (find_id 1 s'.outbox ≡ some (settle report (3 * second) pending taken))
    × (find_id 2 s'.outbox ≡ none)
unfolding strip
push_outbox_finish_settles_example =
    push_outbox_finish_settles 1 "a" report (3 * second) (store taken) taken 2 taken-IsValid refl
      refl refl (omega arith)

push_outbox_finish_refused_example :
    push_outbox_finish 1 "b" report (3 * second) (store taken) ≡ some (not_owned, store taken)
unfolding strip
push_outbox_finish_refused_example =
    push_outbox_finish_refused 1 "b" report (3 * second) (store taken) taken-IsValid refl refl

abbrev drained : Store
drained = record { devices = device ∷ []; outbox = []; next_id = 2 }

-- Between the two, a dispatcher claims the row.
abbrev between : List (ℕ × Call)
between = (2 * second, claim_due "a" 32 60) ∷ []

push_outbox_enqueue_again_example :
    let s' = run between (push_outbox_enqueue notice uuid second drained).1 in
    let (k, s'') = push_outbox_enqueue notice uuid (9 * second) s' in
    (k ≡ 0) × (s''.outbox ≡ s'.outbox)
unfolding push_outbox_enqueue run step push_outbox_claim_due
push_outbox_enqueue_again_example =
    push_outbox_enqueue_again notice notice uuid uuid second (9 * second) drained between refl
      (refl, tt) (refl, tt)
