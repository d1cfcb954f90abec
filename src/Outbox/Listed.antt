-- ===== src/Outbox/Listed.antt =====
-- A row of a dedupe key and a device stays in the outbox of app/db.py until it is deleted.
use rclone.Base.{
  ℕ, ◌+◌, ◌*◌, String, ◌≡◌, refl, ◌∙◌, Bool, true, false, Option, none, some, List, [], ◌∷◌, map,
  arith, All, any_where, find_where, if-both, clamp, strip, is_empty,
}
use rclone.Throttle.{second}
use rclone.Outbox.{Entry, Store, Device, push_devices, push_device_upsert}
use rclone.Outbox.Queue.{
  Notice, same_delivery, new_entry, insert_or_ignore, enqueue_each, push_outbox_enqueue, sweep,
  claim, claim_rows, due_ids, renew, renew_rows, push_outbox_claim_due, push_outbox_renew_claims,
}
use rclone.Outbox.Finish.{
  Report, final_status, settle_held, is_held, finish_row, push_outbox_finish,
}
use rclone.Outbox.Invariant.{IsSameRow}
use rclone.Outbox.Insertion.{any_where-append}
use rclone.Outbox.Rows.{sweep-same, claim-same, renew-same, settle_held-same}
use rclone.Outbox.Steps.{
  Call, upsert, delete, revoke_all, prune_expired, enqueue, claim_due, renew_claims, finish, prune,
  after, step, run,
}

abbrev pub IsListed : String → String → Store → Type 0
IsListed key token s = any_where (same_delivery key token) s.outbox ≡ true

pub insert_or_ignore-keeps :
    (q : Entry → Bool) (e : Entry) (s : Store)
    → any_where q s.outbox ≡ true
    → any_where q (insert_or_ignore e s).1.outbox ≡ true
unfolding insert_or_ignore
insert_or_ignore-keeps q e s h = ground (arith, any_where-append q s.outbox e)

pub enqueue_each-keeps :
    (q : Entry → Bool) (n : Notice) (now : ℕ) (uuid : ℕ → String) (i : ℕ) (ds : List Device)
    (s : Store)
    → any_where q s.outbox ≡ true
    → any_where q (enqueue_each n now uuid i ds s).1.outbox ≡ true
unfolding enqueue_each
enqueue_each-keeps q n now uuid i [] s h = h
enqueue_each-keeps q n now uuid i (d ∷ ds) s h =
    let e = new_entry n now (uuid i) s.next_id d in
    enqueue_each-keeps q n now uuid (i + 1) ds (insert_or_ignore e s).1
      (insert_or_ignore-keeps q e s h)

-- The calls that delete rows.
abbrev pub removes_rows : Call → Bool
removes_rows (delete token owner) = true
removes_rows revoke_all = true
removes_rows prune_expired = true
removes_rows (prune days) = true
removes_rows _ = false

any_where-map :
    (key token : String) (f : Entry → Entry)
    → ((e : Entry) → IsSameRow e (f e))
    → (es : List Entry)
    → any_where (same_delivery key token) (map f es) ≡ any_where (same_delivery key token) es
any_where-map key token f same [] = refl
any_where-map key token f same (e ∷ es) = ground (arith, same e, any_where-map key token f same es)

module _ (key token : String) where
  claim_rows-IsListed :
      (owner : String) (lease now : ℕ) (ids : List ℕ) (s : Store)
      → IsListed key token s
      → IsListed key token (claim_rows owner lease now ids s).1
  unfolding claim_rows
  claim_rows-IsListed owner lease now [] s h = h
  claim_rows-IsListed owner lease now (i ∷ ids) s h =
      any_where-map key token (claim owner lease now (i ∷ ids))
        (claim-same owner lease now (i ∷ ids)) s.outbox
      ∙ h

  claim_due-IsListed :
      (owner : String) (limit lease now : ℕ) (s : Store)
      → IsListed key token s
      → IsListed key token (after s (push_outbox_claim_due owner limit lease now s))
  unfolding push_outbox_claim_due
  claim_due-IsListed owner limit lease now s h =
      let rows = map (sweep now s.devices) s.outbox in
      let swept =
        any_where-map key token (sweep now s.devices) (sweep-same now s.devices) s.outbox ∙ h in
      if-both (λ o. IsListed key token (after s o)) (is_empty (strip owner)) none
        (some (
          claim_rows (strip owner) (now + clamp 10 300 lease * second) now (due_ids limit now rows)
            (record s { outbox = rows })))
        h
        (claim_rows-IsListed (strip owner) (now + clamp 10 300 lease * second) now
          (due_ids limit now rows) (record s { outbox = rows }) swept)

  renew_claims-IsListed :
      (ids : List ℕ) (owner : String) (lease now : ℕ) (s : Store)
      → IsListed key token s
      → IsListed key token (after s (push_outbox_renew_claims ids owner lease now s))
  unfolding push_outbox_renew_claims renew_rows
  renew_claims-IsListed [] owner lease now s h = h
  renew_claims-IsListed (i ∷ ids) owner lease now s h =
      let until = now + clamp 10 300 lease * second in
      if-both (λ o. IsListed key token (after s o)) (is_empty (strip owner)) none
        (some (renew_rows (strip owner) until now (i ∷ ids) s)) h
        (any_where-map key token (renew (strip owner) until now (i ∷ ids))
            (renew-same (strip owner) until now (i ∷ ids)) s.outbox
          ∙ h)

  finish_row-IsListed :
      (r : Report) (now id : ℕ) (owner : String) (s : Store) (e : Option Entry)
      → IsListed key token s
      → IsListed key token (finish_row r now id owner s e).1
  unfolding finish_row
  finish_row-IsListed r now id owner s none h = h
  finish_row-IsListed r now id owner s (some e) h =
      let status = final_status r now s.devices e in
      any_where-map key token (settle_held r now id owner status)
        (settle_held-same r now id owner status) s.outbox
      ∙ h

  finish-IsListed :
      (id : ℕ) (owner : String) (r : Report) (now : ℕ) (s : Store)
      → IsListed key token s
      → IsListed key token (after s (push_outbox_finish id owner r now s))
  unfolding push_outbox_finish
  finish-IsListed id owner r now s h =
      let e = find_where (is_held id (strip owner)) s.outbox in
      if-both (λ o. IsListed key token (after s o)) (is_empty (strip owner)) none
        (some (finish_row r now id (strip owner) s e)) h
        (finish_row-IsListed r now id (strip owner) s e h)

  step-IsListed :
      (now : ℕ) (c : Call) (s : Store)
      → removes_rows c ≡ false
      → IsListed key token s
      → IsListed key token (step now c s)
  unfolding step push_device_upsert push_outbox_enqueue
  step-IsListed now (upsert token environment version lease) s keeps h = h
  step-IsListed now (enqueue n uuid) s keeps h =
      enqueue_each-keeps (same_delivery key token) n now uuid 0 (push_devices n.device_limit now s)
        s h
  step-IsListed now (claim_due owner limit lease) s keeps h =
      claim_due-IsListed owner limit lease now s h
  step-IsListed now (renew_claims ids owner lease) s keeps h =
      renew_claims-IsListed ids owner lease now s h
  step-IsListed now (finish id owner r) s keeps h = finish-IsListed id owner r now s h
  step-IsListed now _ s keeps h = cc

  pub run-IsListed :
      (cs : List (ℕ × Call)) (s : Store)
      → All (λ c. removes_rows c.1 ≡ false) cs
      → IsListed key token s
      → IsListed key token (run cs s)
  unfolding run
  run-IsListed [] s keeps h = h
  run-IsListed ((now, c) ∷ cs) s keeps h =
      run-IsListed cs (step now c s) keeps.1 (step-IsListed now c s keeps.0 h)
