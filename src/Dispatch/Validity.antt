-- ===== src/Dispatch/Validity.antt =====
-- The delivery keeps the outbox valid, whatever APNs answers and other workers do
-- (`dispatch_pending_pushes` of app/push_notifications.py).
use rclone.Outbox.{Entry, Store, push_device_exists, failed, sent, pending, sending}
use rclone.Outbox.Queue.{push_outbox_claim_due}
use rclone.Outbox.Finish.{Report, Outcome, finished, not_owned, missing}
use rclone.Outbox.Invariant.{IsValid}
use rclone.Outbox.Steps.{
  run, step, after, run-IsValid, renew_claims, finish, delete, prune_expired, claim_due,
}
use rclone.Dispatch.{
  Moment, Answer, response, broken, Delivery, Counts, no_counts, retry_delay, is_retryable,
  is_invalid_token, report, renew_at, finish_at, counted, counted_sent, Guarded, lost, revoked,
  clear, guard_row, keep_claim, remove_device, settle_answer, post_row, on_error,
  deliver_configured, deliver_held, deliver, deliver_all, rows_of, dispatch_pending_pushes,
}
use rclone.Base.{
  ℕ, String, true, false, not, Option, none, some, List, [], ◌∷◌, map, ◌==◌, if◌then◌else◌, if-both,
}

pub renew_at-IsValid :
    (m : Moment) (ids : List ℕ) (id : ℕ) (owner : String) (lease : ℕ) (s : Store)
    → IsValid s
    → IsValid (renew_at m ids id owner lease s).1
unfolding renew_at run step
renew_at-IsValid m ids id owner lease s v =
    run-IsValid ((m.now, renew_claims ids owner lease) ∷ []) (run m.others s)
      (run-IsValid m.others s v)

finish_at-IsValid :
    (m : Moment) (id : ℕ) (owner : String) (r : Report) (s : Store)
    → IsValid s
    → IsValid (finish_at m id owner r s).1
unfolding finish_at run step
finish_at-IsValid m id owner r s v =
    run-IsValid ((m.now, finish id owner r) ∷ []) (run m.others s) (run-IsValid m.others s v)

abbrev IsValidIn : Guarded → Type 0
IsValidIn (lost s) = IsValid s
IsValidIn (revoked s) = IsValid s
IsValidIn (clear s) = IsValid s

on_error-both :
    (o : Option String) (handle : String → Counts × Store) (r : Counts × Store)
    → ((error : String) → IsValid (handle error).1)
    → IsValid r.1
    → IsValid (on_error o handle r).1
on_error-both none handle r failing v = v
on_error-both (some error) handle r failing v = failing error

module _ (d : Delivery) (e : Entry) (owner : String) (lease : ℕ) where
  guard_row-IsValidIn : (s : Store) → IsValid s → IsValidIn (guard_row d e owner lease s)
  unfolding guard_row
  guard_row-IsValidIn s v =
      let s' = (renew_at d.checked (e.id ∷ []) e.id owner lease s).1 in
      let valid = renew_at-IsValid d.checked (e.id ∷ []) e.id owner lease s v in
      let s'' = run d.looked.others s' in
      let later = run-IsValid d.looked.others s' valid in
      if-both IsValidIn (not (renew_at d.checked (e.id ∷ []) e.id owner lease s).0) (lost s')
        (if push_device_exists e.token d.looked.now s'' then clear s'' else revoked s'') valid
        (if-both IsValidIn (push_device_exists e.token d.looked.now s'') (clear s'') (revoked s'')
          later later)

  keep_claim-IsValid :
      (ms : List Moment) (answer : Answer) (s : Store)
      → IsValid s
      → IsValid (keep_claim ms e.id owner lease answer s).1
  unfolding keep_claim
  keep_claim-IsValid [] answer s v = v
  keep_claim-IsValid (m ∷ ms) answer s v =
      let s' = (renew_at m (e.id ∷ []) e.id owner lease s).1 in
      let valid = renew_at-IsValid m (e.id ∷ []) e.id owner lease s v in
      if-both {A = Answer × Store} (λ r. IsValid r.1) (renew_at m (e.id ∷ []) e.id owner lease s).0
        (keep_claim ms e.id owner lease answer s')
        (broken "APNs-Zustellung nach Verlust der Outbox-Lease abgebrochen", s')
        (keep_claim-IsValid ms answer s' valid) valid

  remove_device-IsValid :
      (o : Outcome) (s : Store) → IsValid s → IsValid (remove_device d e owner (o, s)).1
  unfolding remove_device run step
  remove_device-IsValid (finished failed) s v =
      run-IsValid ((d.deleted.now, delete e.token (some owner)) ∷ []) (run d.deleted.others s)
        (run-IsValid d.deleted.others s v)
  remove_device-IsValid (finished pending) s v = v
  remove_device-IsValid (finished sending) s v = v
  remove_device-IsValid (finished sent) s v = v
  remove_device-IsValid not_owned s v = v
  remove_device-IsValid missing s v = v

  settle_answer-IsValid :
      (n : ℕ) (answer : Answer) (s : Store)
      → IsValid s
      → IsValid (settle_answer d e owner n answer s).1
  unfolding settle_answer
  settle_answer-IsValid n (broken error) s v =
      finish_at-IsValid d.ended e.id owner
        (report false true (retry_delay e (broken error)) error n) s v
  settle_answer-IsValid n (response code reason error after) s v =
      let delay = retry_delay e (response code reason error after) in
      let accepted = finish_at d.ended e.id owner (report true false 60 "" 8) s in
      let refused = finish_at d.ended e.id owner (report false false 60 error 8) s in
      let r = report false (is_retryable code reason) delay error n in
      let again = finish_at d.ended e.id owner r s in
      let rest =
        if is_invalid_token code reason
        then remove_device d e owner refused
        else (counted again.0, again.1) in
      if-both {A = Counts × Store} (λ r. IsValid r.1) (code == 200)
        (counted_sent accepted.0, accepted.1) rest
        (finish_at-IsValid d.ended e.id owner (report true false 60 "" 8) s v)
        (if-both {A = Counts × Store} (λ r. IsValid r.1) (is_invalid_token code reason)
          (remove_device d e owner refused) (counted again.0, again.1)
          (remove_device-IsValid refused.0 refused.1
            (finish_at-IsValid d.ended e.id owner (report false false 60 error 8) s v))
          (finish_at-IsValid d.ended e.id owner r s v))

  post_row-IsValid : (n : ℕ) (g : Guarded) → IsValidIn g → IsValid (post_row d e owner lease n g).1
  unfolding post_row
  post_row-IsValid n (lost s) v = v
  post_row-IsValid n (revoked s) v =
      finish_at-IsValid d.ended e.id owner (report false false 60 "APNs-Gerät wurde widerrufen" 8) s
        v
  post_row-IsValid n (clear s) v =
      let kept = keep_claim d.heartbeats e.id owner lease d.answer s in
      settle_answer-IsValid n kept.0 kept.1 (keep_claim-IsValid d.heartbeats d.answer s v)

  deliver_configured-IsValid :
      (n : ℕ) (s : Store) → IsValid s → IsValid (deliver_configured d e owner lease n s).1
  unfolding deliver_configured
  deliver_configured-IsValid n s v =
      let failing = λ (error : String). settle_answer d e owner n (broken error) s in
      let failed_too = λ (error : String). settle_answer-IsValid n (broken error) s v in
      let g = guard_row d e owner lease s in
      on_error-both d.token_error failing
        (on_error d.guard_error failing (post_row d e owner lease n g)) failed_too
        (on_error-both d.guard_error failing (post_row d e owner lease n g) failed_too
          (post_row-IsValid n g (guard_row-IsValidIn s v)))

  deliver_held-IsValid :
      (o : Option ℕ) (s : Store) → IsValid s → IsValid (deliver_held d e owner lease s o).1
  unfolding deliver_held
  deliver_held-IsValid none s v =
      finish_at-IsValid d.ended e.id owner
        (report false false 60 "APNs ist für dieses Event nicht mehr konfiguriert" 8) s v
  deliver_held-IsValid (some n) s v = deliver_configured-IsValid (if n == 0 then 8 else n) s v

  deliver-IsValid :
      (remaining : List ℕ) (s : Store) → IsValid s → IsValid (deliver d e remaining owner lease s).1
  unfolding deliver
  deliver-IsValid remaining s v =
      let s' = (renew_at d.renewed remaining e.id owner lease s).1 in
      let valid = renew_at-IsValid d.renewed remaining e.id owner lease s v in
      if-both {A = Counts × Store} (λ r. IsValid r.1)
        (renew_at d.renewed remaining e.id owner lease s).0
        (deliver_held d e owner lease s' d.max_attempts) (no_counts, s')
        (deliver_held-IsValid d.max_attempts s' valid) valid

deliver_all-IsValid :
    (rows : List (Entry × Delivery)) (owner : String) (lease : ℕ) (s : Store)
    → IsValid s
    → IsValid (deliver_all rows owner lease s).1
unfolding deliver_all
deliver_all-IsValid [] owner lease s v = v
deliver_all-IsValid ((e, d) ∷ rows) owner lease s v =
    let ids = e.id ∷ map (λ row. row.0.id) rows in
    deliver_all-IsValid rows owner lease (deliver d e ids owner lease s).1
      (deliver-IsValid d e owner lease ids s v)

-- A dispatcher keeps the tables valid, whatever APNs answers to it and whatever other workers do
-- between its transactions.
pub dispatch_pending_pushes-IsValid :
    (pruned claimed : Moment) (script : Entry → Delivery) (owner : String)
    (limit requested lease : ℕ) (s : Store)
    → IsValid s
    → IsValid (dispatch_pending_pushes pruned claimed script owner limit requested lease s).1
unfolding dispatch_pending_pushes run step
dispatch_pending_pushes-IsValid pruned claimed script owner limit requested lease s v =
    let clean = run ((pruned.now, prune_expired) ∷ []) (run pruned.others s) in
    let valid =
      run-IsValid ((pruned.now, prune_expired) ∷ []) (run pruned.others s)
        (run-IsValid pruned.others s v) in
    let before = run claimed.others clean in
    let reply = push_outbox_claim_due owner limit requested claimed.now before in
    deliver_all-IsValid (map (λ e. (e, script e)) (rows_of reply)) owner lease (after before reply)
      (run-IsValid ((claimed.now, claim_due owner limit requested) ∷ []) before
        (run-IsValid claimed.others clean valid))
