-- ===== src/Dispatch/Examples.antt =====
-- One notification that is delivered, and another dispatcher that finds the queue empty
-- (app/push_notifications.py).
use rclone.Throttle.{second}
use rclone.Outbox.{
  push_device_upsert, Device, Entry, Store, pending, sending, empty, push_device_exists,
}
use rclone.Outbox.Queue.{
  Notice, push_outbox_claim_due, push_outbox_renew_claims, renew_rows, renew, push_outbox_enqueue,
}
use rclone.Outbox.Finish.{settle, push_outbox_finish}
use rclone.Outbox.Invariant.{IsValid}
use rclone.Outbox.Rowids.{find_id}
use rclone.Outbox.Steps.{Call, upsert, enqueue, step, run, claim_due}
use rclone.Dispatch.{
  Moment, Answer, response, broken, report, Delivery, guard_row, renew_at, finish_at, retry_delay,
  retry_after_of, dispatch_pending_pushes, deliver_all, no_counts, deliver, deliver_held,
  deliver_configured, post_row, keep_claim, settle_answer,
}
use rclone.Dispatch.Posting.{is_leased, guard_row-IsLeased, retry_delay-backs_off}
use rclone.Dispatch.Sent.{IsPosted, deliver-IsPosted}
use rclone.Base.{
  ℕ, ◌+◌, ◌*◌, ◌≤◌, min, max, ◌≡◌, ◌⊎◌, refl, true, false, none, some, List, [], ◌∷◌, arith, clamp,
  strip, lstrip, rstrip,
}

abbrev entry : Entry
entry = record {
  id = 1;
  dedupe_key = "k";
  token = "t";
  environment = "production";
  event = "backup_error";
  title = "Backup";
  message = "failed";
  payload_json = "{}";
  status = sending;
  attempts = 3;
  next_attempt_at = 0;
  expires_at = 900 * second;
  lease_until = 40 * second;
  claim_owner = "w1";
  last_error = none;
  apns_id = "a";
  created_at = 0;
  updated_at = 0;
  sent_at = none;
}

abbrev device : Device
device = record {
  token = "t";
  environment = "production";
  app_version = "1";
  created_at = 0;
  updated_at = 0;
  expires_at = 900 * second;
}

abbrev store : Store
store = record { devices = device ∷ []; outbox = entry ∷ []; next_id = 2 }

store-IsValid : IsValid store
store-IsValid = record {
  rows = ((refl, omega arith, refl), tt);
  rising = (omega arith, tt);
  fresh = (omega arith, tt);
  unique = (refl, tt);
}

abbrev at : ℕ → Moment
at t = record { now = t * second; others = [] }

abbrev busy_answer : Answer
busy_answer = response 429 "TooManyRequests" "HTTP 429 TooManyRequests" (some 200)

abbrev delivery : Entry → Delivery
delivery e = record {
  max_attempts = some 8;
  token_error = none;
  guard_error = none;
  renewed = at 20;
  checked = at 21;
  looked = record { now = 22 * second; others = (22 * second, claim_due "w2" 1 60) ∷ [] };
  heartbeats = at 26 ∷ [];
  ended = at 30;
  deleted = at 30;
  answer = busy_answer;
}

abbrev renewed_store : Store
renewed_store = record store {
  outbox = record entry { lease_until = 81 * second; updated_at = 21 * second } ∷ [];
}

abbrev renewed_entry : Entry
renewed_entry = record entry { lease_until = 81 * second; updated_at = 21 * second }

guard_row-IsLeased_example :
    (push_device_exists "t" (22 * second) renewed_store ≡ true)
    × (is_leased 1 (strip "w1") (21 * second + clamp 10 300 60 * second) renewed_entry ≡ true)
    × ((find_id 1 renewed_store.outbox ≡ none)
        ⊎ (find_id 1 renewed_store.outbox ≡ some renewed_entry))
unfolding guard_row renew_at run step push_outbox_claim_due push_outbox_renew_claims renew_rows
    renew push_device_exists strip lstrip rstrip
guard_row-IsLeased_example =
    guard_row-IsLeased (delivery entry) entry "w1" 60 store renewed_store renewed_entry
      store-IsValid refl refl ((omega arith, omega arith, refl), tt)

-- The third attempt waits two minutes, or longer if APNs says so.
third_delay : retry_delay entry (broken "timeout") ≡ 120
unfolding retry_delay
third_delay = refl

retry_delay-backs_off_example :
    let r = report false true (retry_delay entry busy_answer) "timeout" 8 in
    let again = (settle r (30 * second) pending entry).next_attempt_at in
    (30 * second + min 86400 (max 30 (retry_after_of busy_answer)) * second ≤ again)
    × (again ≤ 30 * second + max 3600 (min 86400 (retry_after_of busy_answer)) * second)
    × (min 3600 (2 * retry_delay entry (broken "timeout"))
        ≤ retry_delay (record entry { attempts = 5 }) (broken "timeout"))
retry_delay-backs_off_example =
    retry_delay-backs_off entry (record entry { attempts = 5 }) busy_answer "timeout" 8
      (30 * second) (omega arith) (omega arith)

abbrev taken : Delivery
taken = record (delivery entry) { answer = response 200 "" "HTTP 200" none }

deliver-IsPosted_example :
    ((renew_at (at 20) (1 ∷ []) 1 "w1" 60 store).0 ≡ true)
    × IsPosted taken entry "w1" 60
        (guard_row taken entry "w1" 60 (renew_at (at 20) (1 ∷ []) 1 "w1" 60 store).1)
unfolding deliver deliver_held deliver_configured guard_row post_row keep_claim settle_answer
    renew_at finish_at run step push_outbox_claim_due push_outbox_renew_claims push_outbox_finish
    push_device_exists strip lstrip rstrip
deliver-IsPosted_example = deliver-IsPosted taken entry (1 ∷ []) "w1" 60 store (omega arith)

abbrev notice : Notice
notice = record {
  dedupe_key = "k";
  event = "backup_error";
  title = "Backup";
  message = "failed";
  payload_json = "{}";
  retention_seconds = 3600;
  device_limit = 20;
}

abbrev filled : List (ℕ × Call)
filled = (0, upsert "t" "production" "1" 86400) ∷ (second, enqueue notice (λ n. "a")) ∷ []

-- Another worker asks for rows just before this one.
abbrev contended : Moment
contended = record { now = 11 * second; others = (11 * second, claim_due "w2" 1 60) ∷ [] }

nothing_left :
    (dispatch_pending_pushes (at 10) contended delivery "w1" 32 60 60 (run filled empty)).0
    ≡ no_counts
unfolding dispatch_pending_pushes deliver_all run step push_outbox_claim_due push_outbox_enqueue
    push_device_upsert
nothing_left = refl
