-- ===== src/Outbox/Kept.antt =====
-- A row under a live lease in the outbox of app/db.py, while other dispatchers work on the outbox.
use rclone.Base.{
  ℕ, ◌+◌, ◌*◌, ◌<◌, String, ◌≡◌, refl, ap, ◌∙◌, ◌⊎◌, inl, inr, Bool, true, false, not, Option, none,
  some, List, [], ◌∷◌, ◌++◌, map, arith, ◌==◌, str_eq, Bool-cases, All, any_where, find_where,
  keep_where, if-both, clamp, strip, is_empty,
}
use rclone.Throttle.{second}
use rclone.Outbox.{
  Device, Entry, Store, is_sending, deletes, is_stranded, push_devices, push_device_upsert,
  push_device_delete, push_devices_revoke_all, push_device_prune_expired,
}
use rclone.Outbox.Queue.{
  Notice, new_entry, insert_or_ignore, same_delivery, enqueue_each, push_outbox_enqueue, sweep,
  claim, claim_rows, due_ids, renew, renew_rows, push_outbox_claim_due, push_outbox_renew_claims,
}
use rclone.Outbox.Finish.{
  Report, final_status, settle_held, is_held, finish_row, push_outbox_finish, push_outbox_prune,
  is_prunable,
}
use rclone.Outbox.Invariant.{Rising, IsValid}
use rclone.Outbox.Rows.{sweep-same, claim-same, renew-same, settle_held-same}
use rclone.Outbox.Rowids.{find_id, find_id-map, find_id-low}
use rclone.Outbox.Leases.{IsLive, sweep-IsLive}
use rclone.Outbox.Steps.{
  Call, upsert, delete, revoke_all, prune_expired, enqueue, claim_due, renew_claims, finish, prune,
  after, step, step-IsValid, run,
}

-- The row is as it was, or deleted, and its id is not given to another row.
abbrev pub IsKept : Entry → Store → Type 0
IsKept r s =
    (r.id < s.next_id) × ((find_id r.id s.outbox ≡ none) ⊎ (find_id r.id s.outbox ≡ some r))

-- A renewal or an end of work by the owner.
abbrev pub is_own : String → Call → Bool
is_own owner (renew_claims ids o lease) = str_eq owner (strip o)
is_own owner (finish id o report) = str_eq owner (strip o)
is_own owner _ = false

find_id-keep_where :
    (f : Entry → Bool) (i low : ℕ) (es : List Entry)
    → Rising low es
    → (find_id i (keep_where f es) ≡ none) ⊎ (find_id i (keep_where f es) ≡ find_id i es)
find_id-keep_where f i low [] rise = inl refl
find_id-keep_where f i low (e ∷ es) rise = elim (Bool-cases (e.id == i)) [
  | inl here ↦ elim (Bool-cases (f e)) [
    | inl kept ↦ inr (rw kept (rw here refl))
    | inr gone ↦ elim (find_id-keep_where f i (e.id + 1) es rise.1) [
      | inl absent ↦ inl (rw gone absent)
      | inr same ↦ inl (rw gone (same ∙ find_id-low i (e.id + 1) es rise.1 (ground (arith, here))))
    ]
  ]
  | inr other ↦ elim (Bool-cases (f e)) [
    | inl kept ↦ elim (find_id-keep_where f i (e.id + 1) es rise.1) [
      | inl absent ↦ inl (rw kept (rw other absent))
      | inr same ↦ inr (rw kept (rw other same))
    ]
    | inr gone ↦ elim (find_id-keep_where f i (e.id + 1) es rise.1) [
      | inl absent ↦ inl (rw gone absent)
      | inr same ↦ inr (rw (gone, other) same)
    ]
  ]
]

find_id-append :
    (i : ℕ) (es : List Entry) (e : Entry) → i < e.id → find_id i (es ++ (e ∷ [])) ≡ find_id i es
find_id-append i [] e h = ground arith
find_id-append i (x ∷ es) e h = ground (arith, find_id-append i es e h)

module _ (r : Entry) where
  keep_where-IsKept :
      (f : Entry → Bool) (s : Store) (ds : List Device)
      → IsValid s
      → IsKept r s
      → IsKept r (record s { devices = ds; outbox = keep_where f s.outbox })
  keep_where-IsKept f s ds v (low, found) = (
    low,
    elim (find_id-keep_where f r.id 0 s.outbox v.rising) [
      | inl absent ↦ inl absent
      | inr same ↦ elim found [ inl absent ↦ inl (same ∙ absent) | inr there ↦ inr (same ∙ there) ]
    ],
  )

  map-IsKept :
      (f : Entry → Entry) (s : Store)
      → ((e : Entry) → (f e).id ≡ e.id)
      → f r ≡ r
      → IsKept r s
      → IsKept r (record s { outbox = map f s.outbox })
  map-IsKept f s same fixed (low, inl absent) =
      (low, inl (find_id-map f r.id s.outbox same ∙ rw absent refl))
  map-IsKept f s same fixed (low, inr there) =
      (low, inr (find_id-map f r.id s.outbox same ∙ rw there (ap some fixed)))

  insert_or_ignore-IsKept :
      (e : Entry) (s : Store) → e.id ≡ s.next_id → IsKept r s → IsKept r (insert_or_ignore e s).1
  unfolding insert_or_ignore
  insert_or_ignore-IsKept e s same (low, found) =
      let appended = find_id-append r.id s.outbox e (omega (arith, same, low)) in
      if-both {A = ℕ × Store} (λ p. IsKept r p.1)
        (any_where (same_delivery e.dedupe_key e.token) s.outbox)
        (0, record s { next_id = s.next_id + 1 })
        (1, record s { outbox = s.outbox ++ (e ∷ []); next_id = s.next_id + 1 })
        (omega (arith, low), found) (omega (arith, low), rw appended found)

  enqueue_each-IsKept :
      (n : Notice) (now : ℕ) (uuid : ℕ → String) (i : ℕ) (ds : List Device) (s : Store)
      → IsKept r s
      → IsKept r (enqueue_each n now uuid i ds s).1
  unfolding enqueue_each
  enqueue_each-IsKept n now uuid i [] s h = h
  enqueue_each-IsKept n now uuid i (d ∷ ds) s h =
      let e = new_entry n now (uuid i) s.next_id d in
      enqueue_each-IsKept n now uuid (i + 1) ds (insert_or_ignore e s).1
        (insert_or_ignore-IsKept e s (unfold new_entry in refl) h)

  module _ (now : ℕ) (live : IsLive now r) where
    claim_rows-IsKept :
        (owner : String) (lease : ℕ) (ids : List ℕ) (s : Store)
        → IsKept r s
        → IsKept r (claim_rows owner lease now ids s).1
    unfolding claim_rows
    claim_rows-IsKept owner lease [] s h = h
    claim_rows-IsKept owner lease (i ∷ ids) s h =
        map-IsKept (claim owner lease now (i ∷ ids)) s
          (λ e. (claim-same owner lease now (i ∷ ids) e).0) (unfold claim in ground (arith, live.0))
          h

    claim_due-IsKept :
        (owner : String) (limit lease : ℕ) (s : Store)
        → IsKept r s
        → IsKept r (after s (push_outbox_claim_due owner limit lease now s))
    unfolding push_outbox_claim_due
    claim_due-IsKept owner limit lease s h =
        let swept = record s { outbox = map (sweep now s.devices) s.outbox } in
        let until = now + clamp 10 300 lease * second in
        let ids = due_ids limit now swept.outbox in
        if-both (λ o. IsKept r (after s o)) (is_empty (strip owner)) none
          (some (claim_rows (strip owner) until now ids swept)) h
          (claim_rows-IsKept (strip owner) until ids swept (
            map-IsKept (sweep now s.devices) s (λ e. (sweep-same now s.devices e).0)
              (sweep-IsLive now s.devices r live) h))

    renew_claims-IsKept :
        (ids : List ℕ) (owner : String) (lease : ℕ) (s : Store)
        → str_eq r.claim_owner (strip owner) ≡ false
        → IsKept r s
        → IsKept r (after s (push_outbox_renew_claims ids owner lease now s))
    unfolding push_outbox_renew_claims renew_rows
    renew_claims-IsKept [] owner lease s other h = h
    renew_claims-IsKept (i ∷ ids) owner lease s other h =
        let until = now + clamp 10 300 lease * second in
        if-both (λ o. IsKept r (after s o)) (is_empty (strip owner)) none
          (some (renew_rows (strip owner) until now (i ∷ ids) s)) h
          (map-IsKept (renew (strip owner) until now (i ∷ ids)) s
            (λ e. (renew-same (strip owner) until now (i ∷ ids) e).0)
            (unfold renew in ground (arith, other)) h)

    finish_row-IsKept :
        (report : Report) (id : ℕ) (owner : String) (s : Store) (o : Option Entry)
        → str_eq r.claim_owner owner ≡ false
        → IsKept r s
        → IsKept r (finish_row report now id owner s o).1
    unfolding finish_row
    finish_row-IsKept report id owner s none other h = h
    finish_row-IsKept report id owner s (some e) other h =
        let status = final_status report now s.devices e in
        map-IsKept (settle_held report now id owner status) s
          (λ e. (settle_held-same report now id owner status e).0)
          (unfold settle_held in ground (arith, other)) h

    finish-IsKept :
        (id : ℕ) (owner : String) (report : Report) (s : Store)
        → str_eq r.claim_owner (strip owner) ≡ false
        → IsKept r s
        → IsKept r (after s (push_outbox_finish id owner report now s))
    unfolding push_outbox_finish
    finish-IsKept id owner report s other h =
        let e = find_where (is_held id (strip owner)) s.outbox in
        if-both (λ o. IsKept r (after s o)) (is_empty (strip owner)) none
          (some (finish_row report now id (strip owner) s e)) h
          (finish_row-IsKept report id (strip owner) s e other h)

    step-IsKept :
        (c : Call) (s : Store)
        → is_own r.claim_owner c ≡ false
        → IsValid s
        → IsKept r s
        → IsKept r (step now c s)
    unfolding step push_device_upsert push_device_delete push_devices_revoke_all
        push_device_prune_expired push_outbox_enqueue push_outbox_prune
    step-IsKept (upsert token environment version lease) s other v h = h
    step-IsKept (delete token owner) s other v h =
        keep_where-IsKept (λ e. not (deletes token owner e)) s s.devices v h
    step-IsKept revoke_all s other v h = (h.0, inl refl)
    step-IsKept prune_expired s other v h =
        keep_where-IsKept (λ e. not (is_stranded now s.devices e)) s s.devices v h
    step-IsKept (enqueue n uuid) s other v h =
        enqueue_each-IsKept n now uuid 0 (push_devices n.device_limit now s) s h
    step-IsKept (claim_due owner limit lease) s other v h = claim_due-IsKept owner limit lease s h
    step-IsKept (renew_claims ids owner lease) s other v h =
        renew_claims-IsKept ids owner lease s other h
    step-IsKept (finish id owner report) s other v h = finish-IsKept id owner report s other h
    step-IsKept (prune days) s other v h =
        keep_where-IsKept (λ e. not (is_prunable _ e)) s s.devices v h

  -- While its lease lives, a row stays as it is or is deleted, whatever the others call.
  pub run-IsKept :
      (cs : List (ℕ × Call)) (s : Store)
      → is_sending r.status ≡ true
      → All
          (λ c. (c.0 < r.lease_until) × (c.0 < r.expires_at) × (is_own r.claim_owner c.1 ≡ false))
          cs
      → IsValid s
      → IsKept r s
      → IsKept r (run cs s)
  unfolding run
  run-IsKept [] s active in_time v h = h
  run-IsKept ((now, c) ∷ cs) s active in_time v h =
      let (before, wanted, other) = in_time.0 in
      run-IsKept cs (step now c s) active in_time.1 (step-IsValid now c s v)
        (step-IsKept now (active, before, wanted) c s other v h)
