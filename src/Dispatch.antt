-- ===== src/Dispatch.antt =====
-- The delivery of the notifications that wait (`_retry_delay`, `dispatch_pending_pushes` of
-- app/push_notifications.py), by the operations of the outbox.
-- The answers of APNs, the settings, the signing of its token and the calls of other workers are
-- arguments.
pub mod Posting
pub mod Validity
pub mod Sent
mod Examples
use rclone.Outbox.{
  Entry, Store, Status, pending, sending, sent, failed, push_device_prune_expired,
  push_device_exists, push_device_delete,
}
use rclone.Outbox.Queue.{push_outbox_claim_due, push_outbox_renew_claims, has_id}
use rclone.Outbox.Finish.{Report, Outcome, finished, not_owned, missing, push_outbox_finish}
use rclone.Outbox.Steps.{Call, run, after}
use rclone.Base.{
  ℕ, zero, suc, ◌+◌, ◌-◌, ◌*◌, ◌/◌, ◌%◌, ◌^◌, ◌≤◌, ◌<◌, min, max, String, ◌≡◌, refl, sym, ap, ◌∙◌,
  ◌≢◌, ◌↔◌, ◌⊎◌, inl, inr, Bool, true, false, not, ◌&&◌, ◌||◌, Option, none, some, List, [], ◌∷◌,
  ◌++◌, map, arith, str_eq, eq_iff, eq_refl, ltb, leb, ◌==◌, if◌then◌else◌, clamp, is_some,
  Bool-cases, Option-cases, length, All, any_where,
}

-- When an operation runs, and what other workers do before it.
pub record Moment : Type 0 where
  pub now : ℕ
  pub others : List (ℕ × Call)

-- An answer with its status code, its reason, the text "HTTP …" of both and its header retry-after,
-- or a network error.
pub data Answer : Type 0 where
  response : ℕ → String → String → Option ℕ → Answer
  broken : String → Answer

-- What happens around one row. `max_attempts` is `none` where the event is not configured any more;
-- `token_error` is there where the provider token cannot be signed, and `guard_error` where the lock
-- of the delivery guard cannot be taken.
pub record Delivery : Type 0 where
  pub max_attempts : Option ℕ
  pub token_error : Option String
  pub guard_error : Option String
  pub renewed : Moment
  pub checked : Moment
  pub looked : Moment
  pub heartbeats : List Moment
  pub ended : Moment
  pub deleted : Moment
  pub answer : Answer

pub record Counts : Type 0 where
  pub sent_rows : ℕ
  pub failed_rows : ℕ
  pub removed : ℕ
  pub retrying : ℕ

abbrev pub no_counts : Counts
no_counts = record { sent_rows = 0; failed_rows = 0; removed = 0; retrying = 0 }

abbrev pub retry_after_of : Answer → ℕ
retry_after_of (response code reason error (some seconds)) = seconds
retry_after_of _ = 0

-- `_retry_delay`; a network error has no response.
unfoldable pub retry_delay : Entry → Answer → ℕ
retry_delay e answer =
    let attempts = max 1 e.attempts in
    max (min 3600 (30 * 2 ^ min (attempts - 1) 7)) (retry_after_of answer)

-- `status_code in {429, 500, 503} or reason in {…}`
abbrev pub is_retryable : ℕ → String → Bool
is_retryable code reason =
    code == 429
    || code == 500
    || code == 503
    || str_eq reason "ExpiredProviderToken"
    || str_eq reason "TooManyProviderTokenUpdates"

-- `status_code in {400, 410} and reason in _INVALID_TOKEN_REASONS`
abbrev pub is_invalid_token : ℕ → String → Bool
is_invalid_token code reason =
    (code == 400 || code == 410)
    && (str_eq reason "BadDeviceToken"
        || str_eq reason "DeviceTokenNotForTopic"
        || str_eq reason "Unregistered")

abbrev pub report : Bool → Bool → ℕ → String → ℕ → Report
report was_sent retry delay error max_attempts = record {
  was_sent = was_sent;
  retry = retry;
  retry_delay_seconds = delay;
  error = error;
  max_attempts = max_attempts;
}

abbrev pub ids_of : Option (List ℕ × Store) → List ℕ
ids_of none = []
ids_of (some (ids, s)) = ids

abbrev pub outcome_of : Option (Outcome × Store) → Outcome
outcome_of none = missing
outcome_of (some (o, s)) = o

-- The claims of some rows are renewed; the reply is whether one of them is still held.
unfoldable pub renew_at : Moment → List ℕ → ℕ → String → ℕ → Store → Bool × Store
unfolding run push_outbox_renew_claims
renew_at m ids id owner lease s =
    let before = run m.others s in
    let reply = push_outbox_renew_claims ids owner lease m.now before in
    (has_id (ids_of reply) id, after before reply)

unfoldable pub finish_at : Moment → ℕ → String → Report → Store → Outcome × Store
unfolding run push_outbox_finish
finish_at m id owner r s =
    let before = run m.others s in
    let reply = push_outbox_finish id owner r m.now before in (outcome_of reply, after before reply)

abbrev pub counted : Outcome → Counts
counted (finished pending) = record no_counts { retrying = 1 }
counted (finished failed) = record no_counts { failed_rows = 1 }
counted _ = no_counts

abbrev pub counted_sent : Outcome → Counts
counted_sent (finished sent) = record no_counts { sent_rows = 1 }
counted_sent _ = no_counts

-- Under the delivery guard: the claim is lost, the device is revoked, or the row may be posted.
pub data Guarded : Type 0 where
  lost revoked clear : Store → Guarded

unfoldable pub guard_row : Delivery → Entry → String → ℕ → Store → Guarded
unfolding renew_at run push_device_exists
guard_row d e owner lease s =
    let (held, s') = renew_at d.checked (e.id ∷ []) e.id owner lease s in
    let s'' = run d.looked.others s' in
    if not held
    then lost s'
    else if push_device_exists e.token d.looked.now s''
    then clear s''
    else revoked s''

-- The renewals while the row is posted; without the claim the connection is closed.
unfoldable pub keep_claim : List Moment → ℕ → String → ℕ → Answer → Store → Answer × Store
unfolding renew_at
keep_claim [] id owner lease answer s = (answer, s)
keep_claim (m ∷ ms) id owner lease answer s =
    let (held, s') = renew_at m (id ∷ []) id owner lease s in
    let kept = keep_claim ms id owner lease answer s' in
    if held then kept else (broken "APNs-Zustellung nach Verlust der Outbox-Lease abgebrochen", s')

-- A device whose token is invalid is deleted once its row has failed.
unfoldable pub remove_device : Delivery → Entry → String → Outcome × Store → Counts × Store
unfolding run push_device_delete
remove_device d e owner (finished failed, s) =
    let (removed, s') = push_device_delete e.token (some owner) (run d.deleted.others s) in
    (record no_counts { failed_rows = 1; removed = if removed then 1 else 0 }, s')
remove_device d e owner (o, s) = (no_counts, s)

unfoldable pub settle_answer : Delivery → Entry → String → ℕ → Answer → Store → Counts × Store
unfolding finish_at retry_delay remove_device
settle_answer d e owner max_attempts (broken error) s =
    let r = report false true (retry_delay e (broken error)) error max_attempts in
    let (o, s') = finish_at d.ended e.id owner r s in (counted o, s')
settle_answer d e owner max_attempts (response code reason error after) s =
    let delay = retry_delay e (response code reason error after) in
    let accepted = finish_at d.ended e.id owner (report true false 60 "" 8) s in
    let refused = finish_at d.ended e.id owner (report false false 60 error 8) s in
    let again =
      finish_at d.ended e.id owner
        (report false (is_retryable code reason) delay error max_attempts) s in
    if code == 200
    then (counted_sent accepted.0, accepted.1)
    else if is_invalid_token code reason
    then remove_device d e owner refused
    else (counted again.0, again.1)

unfoldable pub post_row : Delivery → Entry → String → ℕ → ℕ → Guarded → Counts × Store
unfolding finish_at keep_claim settle_answer
post_row d e owner lease max_attempts (lost s) = (no_counts, s)
post_row d e owner lease max_attempts (revoked s) = (
  no_counts,
  (finish_at d.ended e.id owner (report false false 60 "APNs-Gerät wurde widerrufen" 8) s).1,
)
post_row d e owner lease max_attempts (clear s) =
    let (answer, s') = keep_claim d.heartbeats e.id owner lease d.answer s in
    settle_answer d e owner max_attempts answer s'

abbrev pub on_error {ℓ} : {A : Type ℓ} → Option String → (String → A) → A → A
on_error none handle value = value
on_error (some error) handle value = handle error

-- A row whose event is configured.
unfoldable pub deliver_configured : Delivery → Entry → String → ℕ → ℕ → Store → Counts × Store
unfolding guard_row post_row settle_answer
deliver_configured d e owner lease max_attempts s =
    let failing = λ (error : String). settle_answer d e owner max_attempts (broken error) s in
    on_error d.token_error failing (
      on_error d.guard_error failing
        (post_row d e owner lease max_attempts (guard_row d e owner lease s)))

unfoldable pub deliver_held : Delivery → Entry → String → ℕ → Store → Option ℕ → Counts × Store
unfolding finish_at deliver_configured
deliver_held d e owner lease s none =
    let r = report false false 60 "APNs ist für dieses Event nicht mehr konfiguriert" 8 in
    let (o, s') = finish_at d.ended e.id owner r s in (counted o, s')
deliver_held d e owner lease s (some n) =
    deliver_configured d e owner lease (if n == 0 then 8 else n) s

-- One round of the loop; `remaining` are the rows from this one on.
unfoldable pub deliver : Delivery → Entry → List ℕ → String → ℕ → Store → Counts × Store
unfolding renew_at deliver_held
deliver d e remaining owner lease s =
    let (held, s') = renew_at d.renewed remaining e.id owner lease s in
    if held then deliver_held d e owner lease s' d.max_attempts else (no_counts, s')

abbrev pub add_counts : Counts → Counts → Counts
add_counts a b = record {
  sent_rows = a.sent_rows + b.sent_rows;
  failed_rows = a.failed_rows + b.failed_rows;
  removed = a.removed + b.removed;
  retrying = a.retrying + b.retrying;
}

unfoldable pub deliver_all : List (Entry × Delivery) → String → ℕ → Store → Counts × Store
unfolding deliver
deliver_all [] owner lease s = (no_counts, s)
deliver_all ((e, d) ∷ rows) owner lease s =
    let (counts, s') = deliver d e (e.id ∷ map (λ row. row.0.id) rows) owner lease s in
    let (others, s'') = deliver_all rows owner lease s' in (add_counts counts others, s'')

abbrev pub rows_of : Option (List Entry × Store) → List Entry
rows_of none = []
rows_of (some (rows, s)) = rows

-- The claim of due rows, and the loop over them. `script` says what happens around each row,
-- `requested` is the lease of the claim and `lease` that of the renewals.
unfoldable pub dispatch_pending_pushes :
    Moment → Moment → (Entry → Delivery) → String → ℕ → ℕ → ℕ → Store → Counts × Store
unfolding run push_device_prune_expired push_outbox_claim_due deliver_all
dispatch_pending_pushes pruned claimed script owner limit requested lease s =
    let clean = (push_device_prune_expired pruned.now (run pruned.others s)).1 in
    let before = run claimed.others clean in
    let reply = push_outbox_claim_due owner limit requested claimed.now before in
    deliver_all (map (λ e. (e, script e)) (rows_of reply)) owner lease (after before reply)
