-- ===== src/Outbox/Steps.antt =====
-- Calls of the outbox operations of app/db.py in any order, by any number of dispatchers.
use mathlib.Core.Bool.{not}
use rclone.Base.{
  ℕ, ◌+◌, String, ◌≡◌, inl, inr, false, Option, none, List, [], ◌∷◌, Bool-cases, is_empty, some,
  strip, clamp, find_where, ◌*◌,
}
use rclone.Outbox.{
  Entry, Store, empty, push_device_upsert, push_device_delete, push_devices_revoke_all,
  push_device_prune_expired, deletes, is_stranded, push_devices, second,
}
use rclone.Outbox.Queue.{
  Notice, sweep, claim, renew, claim_rows, push_outbox_claim_due, push_outbox_renew_claims,
  push_outbox_enqueue,
}
use rclone.Outbox.Finish.{
  Report, settle_held, final_status, is_held, finish_row, push_outbox_finish, push_outbox_prune,
  is_prunable,
}
use rclone.Outbox.Invariant.{IsValid, map-IsValid, keep_where-IsValid}
use rclone.Outbox.Insertion.{enqueue_each-IsValid}
use rclone.Outbox.Rows.{
  sweep-same, sweep-IsRow, claim-same, claim-IsRow, renew-same, renew-IsRow, settle_held-same,
  settle_held-IsRow, final_status-IsSettled,
}

-- A call of any of the operations.
pub data Call : Type 0 where
  upsert : String → String → String → ℕ → Call
  delete : String → Option String → Call
  revoke_all prune_expired : Call
  enqueue : Notice → (ℕ → String) → Call
  claim_due : String → ℕ → ℕ → Call
  renew_claims : List ℕ → String → ℕ → Call
  finish : ℕ → String → Report → Call
  prune : ℕ → Call

-- A ValueError leaves the tables as they were.
abbrev pub after {ℓ} : {A : Type ℓ} → Store → Option (A × Store) → Store
after s none = s
after s (some (_, s')) = s'

unfoldable pub step : ℕ → Call → Store → Store
step now (upsert token environment version lease) s =
    push_device_upsert token environment version lease now s
step now (delete token owner) s = (push_device_delete token owner s).1
step now revoke_all s = (push_devices_revoke_all s).1
step now prune_expired s = (push_device_prune_expired now s).1
step now (enqueue n uuid) s = (push_outbox_enqueue n uuid now s).1
step now (claim_due owner limit lease) s = after s (push_outbox_claim_due owner limit lease now s)
step now (renew_claims ids owner lease) s = after s (push_outbox_renew_claims ids owner lease now s)
step now (finish id owner r) s = after s (push_outbox_finish id owner r now s)
step now (prune days) s = (push_outbox_prune days now s).1

claim_rows-IsValid :
    (owner : String) (lease now : ℕ) (ids : List ℕ) (s : Store)
    → is_empty owner ≡ false
    → IsValid s
    → IsValid (claim_rows owner lease now ids s).1
unfolding claim_rows
claim_rows-IsValid owner lease now [] s named v = v
claim_rows-IsValid owner lease now (i ∷ ids) s named v =
    map-IsValid (claim owner lease now (i ∷ ids)) (claim-same owner lease now (i ∷ ids))
      (claim-IsRow owner lease now (i ∷ ids) named) s v

claim_due-IsValid :
    (owner : String) (limit lease now : ℕ) (s : Store)
    → IsValid s
    → IsValid (after s (push_outbox_claim_due owner limit lease now s))
unfolding push_outbox_claim_due
claim_due-IsValid owner limit lease now s v = elim (Bool-cases (is_empty (strip owner))) [
  | inl unnamed ↦ rw unnamed v
  | inr named ↦ rw named (
      claim_rows-IsValid (strip owner) _ now _ _ named (
        map-IsValid (sweep now s.devices) (sweep-same now s.devices) (sweep-IsRow now s.devices) s
          v))
]

renew_claims-IsValid :
    (ids : List ℕ) (owner : String) (lease now : ℕ) (s : Store)
    → IsValid s
    → IsValid (after s (push_outbox_renew_claims ids owner lease now s))
unfolding push_outbox_renew_claims
renew_claims-IsValid [] owner lease now s v = v
renew_claims-IsValid (i ∷ ids) owner lease now s v = elim (Bool-cases (is_empty (strip owner))) [
  | inl unnamed ↦ rw unnamed v
  | inr named ↦
      let until = now + clamp 10 300 lease * second in
      rw named (
        map-IsValid (renew (strip owner) until now (i ∷ ids))
          (renew-same (strip owner) until now (i ∷ ids))
          (renew-IsRow (strip owner) until now (i ∷ ids)) s v)
]

finish_row-IsValid :
    (r : Report) (now id : ℕ) (owner : String) (s : Store) (e : Option Entry)
    → IsValid s
    → IsValid (finish_row r now id owner s e).1
unfolding finish_row
finish_row-IsValid r now id owner s none v = v
finish_row-IsValid r now id owner s (some e) v =
    let status = final_status r now s.devices e in
    map-IsValid (settle_held r now id owner status) (settle_held-same r now id owner status)
      (settle_held-IsRow r now id owner status (final_status-IsSettled r now s.devices e)) s v

finish-IsValid :
    (id : ℕ) (owner : String) (r : Report) (now : ℕ) (s : Store)
    → IsValid s
    → IsValid (after s (push_outbox_finish id owner r now s))
unfolding push_outbox_finish
finish-IsValid id owner r now s v = elim (Bool-cases (is_empty (strip owner))) [
  | inl unnamed ↦ rw unnamed v
  | inr named ↦ rw named (
      finish_row-IsValid r now id (strip owner) s (find_where (is_held id (strip owner)) s.outbox)
        v)
]

pub step-IsValid : (now : ℕ) (c : Call) (s : Store) → IsValid s → IsValid (step now c s)
unfolding step push_device_upsert push_device_delete push_devices_revoke_all
    push_device_prune_expired push_outbox_enqueue push_outbox_prune
step-IsValid now (upsert token environment version lease) s v = record {
  rows = v.rows;
  rising = v.rising;
  fresh = v.fresh;
  unique = v.unique;
}
step-IsValid now (delete token owner) s v =
    keep_where-IsValid (λ e. not (deletes token owner e)) s _ v
step-IsValid now revoke_all s v = record { rows = tt; rising = tt; fresh = tt; unique = tt }
step-IsValid now prune_expired s v =
    keep_where-IsValid (λ e. not (is_stranded now s.devices e)) s _ v
step-IsValid now (enqueue n uuid) s v =
    enqueue_each-IsValid n now uuid 0 (push_devices n.device_limit now s) s v
step-IsValid now (claim_due owner limit lease) s v = claim_due-IsValid owner limit lease now s v
step-IsValid now (renew_claims ids owner lease) s v = renew_claims-IsValid ids owner lease now s v
step-IsValid now (finish id owner r) s v = finish-IsValid id owner r now s v
step-IsValid now (prune days) s v = keep_where-IsValid (λ e. not (is_prunable _ e)) s s.devices v

unfoldable pub run : List (ℕ × Call) → Store → Store
unfolding step
run [] s = s
run ((now, c) ∷ cs) s = run cs (step now c s)

-- After any calls, at any times and by any dispatchers, starting from empty tables: exactly the
-- rows under way have an owner, a delivered row was attempted and has a delivery time, no row that
-- is not delivered has one, ids are distinct and rising, and no device has two rows of one
-- dedupe key.
pub run-IsValid : (calls : List (ℕ × Call)) (s : Store) → IsValid s → IsValid (run calls s)
unfolding run
run-IsValid [] s v = v
run-IsValid ((now, c) ∷ cs) s v = run-IsValid cs (step now c s) (step-IsValid now c s v)

pub empty-IsValid : IsValid empty
empty-IsValid = record { rows = tt; rising = tt; fresh = tt; unique = tt }
