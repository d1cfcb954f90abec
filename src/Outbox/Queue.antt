-- ===== src/Outbox/Queue.antt =====
-- The delivery rows of app/db.py (`push_outbox_*`). A dispatcher claims rows under a lease, renews
-- its claims and finishes each row; `none` stands for the ValueError on an empty owner.
use rclone.Base.{
  ℕ, ◌+◌, ◌*◌, String, Bool, not, ◌&&◌, ◌||◌, Option, none, some, List, [], ◌∷◌, ◌++◌, map, str_eq,
  ltb, leb, ◌==◌, if◌then◌else◌, clamp, take, keep_where, any_where, sort_by, strip, prefix,
  is_empty,
}
use rclone.Throttle.{second}
use rclone.Outbox.{
  Device, pending, sending, failed, is_pending, is_sending, Entry, Store, push_devices,
}

-- The arguments of `push_outbox_enqueue`. `payload_json` is the text that `_json_dumps_bounded`
-- makes of the payload.
pub record Notice : Type 0 where
  pub event : String
  pub title : String
  pub message : String
  pub payload_json : String
  pub dedupe_key : String
  pub retention_seconds : ℕ
  pub device_limit : ℕ

-- `UNIQUE(dedupe_key, token)`
abbrev pub same_delivery : String → String → Entry → Bool
same_delivery dedupe_key token e = str_eq e.dedupe_key dedupe_key && str_eq e.token token

-- The row that is inserted for a device; `apns_id` is a fresh UUID.
unfoldable pub new_entry : Notice → ℕ → String → ℕ → Device → Entry
new_entry n now apns_id id d = record {
  id = id;
  dedupe_key = prefix 256 n.dedupe_key;
  token = d.token;
  environment = d.environment;
  event = prefix 64 n.event;
  title = prefix 120 n.title;
  message = prefix 900 n.message;
  payload_json = n.payload_json;
  status = pending;
  attempts = 0;
  next_attempt_at = now;
  expires_at = now + clamp 60 (7 * 86400) n.retention_seconds * second;
  lease_until = 0;
  claim_owner = "";
  last_error = none;
  apns_id = apns_id;
  created_at = now;
  updated_at = now;
  sent_at = none;
}

-- `INSERT OR IGNORE`, with the number of rows inserted. The id is drawn before the row is ignored, so
-- that AUTOINCREMENT does not use it again.
unfoldable pub insert_or_ignore : Entry → Store → ℕ × Store
insert_or_ignore e s =
    if any_where (same_delivery e.dedupe_key e.token) s.outbox
    then (0, record s { next_id = s.next_id + 1 })
    else (1, record s { outbox = s.outbox ++ (e ∷ []); next_id = s.next_id + 1 })

-- The loop over the devices; `uuid i` is the UUID drawn for the device at position i.
unfoldable pub enqueue_each : Notice → ℕ → (ℕ → String) → ℕ → List Device → Store → ℕ × Store
unfolding new_entry insert_or_ignore
enqueue_each n now uuid i [] s = (0, s)
enqueue_each n now uuid i (d ∷ ds) s =
    let (k, s') = insert_or_ignore (new_entry n now (uuid i) s.next_id d) s in
    let (m, s'') = enqueue_each n now uuid (i + 1) ds s' in (k + m, s'')

unfoldable pub push_outbox_enqueue : Notice → (ℕ → String) → ℕ → Store → ℕ × Store
unfolding enqueue_each push_devices
push_outbox_enqueue n uuid now s = enqueue_each n now uuid 0 (push_devices n.device_limit now s) s

abbrev pub is_lapsed : ℕ → Entry → Bool
is_lapsed now e = is_sending e.status && leb e.lease_until now && ltb now e.expires_at

-- An expired lease of a row that is still wanted goes back to the queue.
unfoldable pub release_expired : ℕ → Entry → Entry
release_expired now e =
    if is_lapsed now e
    then record e { status = pending; lease_until = 0; claim_owner = ""; updated_at = now }
    else e

-- `COALESCE(last_error, reason)`
abbrev pub or_reason : Option String → String → Option String
or_reason none reason = some reason
or_reason (some old) reason = some old

abbrev pub is_expired : ℕ → Entry → Bool
is_expired now e = (is_pending e.status || is_sending e.status) && leb e.expires_at now

unfoldable pub fail_expired : ℕ → Entry → Entry
fail_expired now e =
    if is_expired now e
    then record e {
      status = failed;
      lease_until = 0;
      claim_owner = "";
      last_error = or_reason e.last_error "Benachrichtigung abgelaufen";
      updated_at = now;
    }
    else e

abbrev pub is_registered : List Device → String → Bool
is_registered ds token = any_where (λ d. str_eq d.token token) ds

abbrev pub is_orphaned : List Device → Entry → Bool
is_orphaned ds e = is_pending e.status && not (is_registered ds e.token)

unfoldable pub fail_unregistered : ℕ → List Device → Entry → Entry
fail_unregistered now ds e =
    if is_orphaned ds e
    then record e {
      status = failed;
      lease_until = 0;
      claim_owner = "";
      last_error = or_reason e.last_error "Push-Gerät nicht mehr registriert";
      updated_at = now;
    }
    else e

-- The three updates with which a claim begins.
unfoldable pub sweep : ℕ → List Device → Entry → Entry
unfolding release_expired fail_expired fail_unregistered
sweep now ds e = fail_unregistered now ds (fail_expired now (release_expired now e))

abbrev pub is_due : ℕ → Entry → Bool
is_due now e = is_pending e.status && leb e.next_attempt_at now && ltb now e.expires_at

-- `ORDER BY next_attempt_at, id`
abbrev pub is_before : Entry → Entry → Bool
is_before a b =
    ltb a.next_attempt_at b.next_attempt_at
    || a.next_attempt_at == b.next_attempt_at && ltb a.id b.id

abbrev pub has_id : List ℕ → ℕ → Bool
has_id ids i = any_where (λ j. i == j) ids

unfoldable pub claim : String → ℕ → ℕ → List ℕ → Entry → Entry
claim owner lease now ids e =
    if is_pending e.status && has_id ids e.id
    then record e {
      status = sending;
      attempts = e.attempts + 1;
      lease_until = lease;
      claim_owner = owner;
      updated_at = now;
    }
    else e

abbrev pub is_claimed_by : String → List ℕ → Entry → Bool
is_claimed_by owner ids e = has_id ids e.id && is_sending e.status && str_eq e.claim_owner owner

-- The ids of the rows that are due, earliest first.
unfoldable pub due_ids : ℕ → ℕ → List Entry → List ℕ
due_ids limit now rows =
    map (λ e. e.id) (take (clamp 1 128 limit) (sort_by is_before (keep_where (is_due now) rows)))

-- The claim on rows that have been swept.
unfoldable pub claim_rows : String → ℕ → ℕ → List ℕ → Store → List Entry × Store
unfolding claim
claim_rows owner lease now [] s = ([], s)
claim_rows owner lease now (i ∷ ids) s =
    let rows = map (claim owner lease now (i ∷ ids)) s.outbox in
    (
      sort_by is_before (keep_where (is_claimed_by owner (i ∷ ids)) rows),
      record s { outbox = rows },
    )

unfoldable pub push_outbox_claim_due : String → ℕ → ℕ → ℕ → Store → Option (List Entry × Store)
unfolding sweep due_ids claim_rows strip
push_outbox_claim_due claim_owner limit lease_seconds now s =
    let owner = strip claim_owner in
    let rows = map (sweep now s.devices) s.outbox in
    if is_empty owner
    then none
    else some (
        claim_rows owner (now + clamp 10 300 lease_seconds * second) now (due_ids limit now rows)
          (record s { outbox = rows }))

unfoldable pub renew : String → ℕ → ℕ → List ℕ → Entry → Entry
renew owner lease now ids e =
    if is_claimed_by owner ids e then record e { lease_until = lease; updated_at = now } else e

-- The renewal once the owner is checked; the reply lists the ids in ascending order.
unfoldable pub renew_rows : String → ℕ → ℕ → List ℕ → Store → List ℕ × Store
unfolding renew
renew_rows owner lease now ids s =
    let rows = map (renew owner lease now ids) s.outbox in
    (
      sort_by ltb (map (λ e. e.id) (keep_where (is_claimed_by owner ids) rows)),
      record s { outbox = rows },
    )

unfoldable pub push_outbox_renew_claims : List ℕ → String → ℕ → ℕ → Store → Option (List ℕ × Store)
unfolding renew_rows strip
push_outbox_renew_claims [] claim_owner lease_seconds now s = some ([], s)
push_outbox_renew_claims (i ∷ ids) claim_owner lease_seconds now s =
    let owner = strip claim_owner in
    if is_empty owner
    then none
    else some (renew_rows owner (now + clamp 10 300 lease_seconds * second) now (i ∷ ids) s)
