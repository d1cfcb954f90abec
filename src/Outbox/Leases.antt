-- ===== src/Outbox/Leases.antt =====
-- What a claim on the outbox of app/db.py takes, and what a live lease keeps from it.
use rclone.Base.{
  ℕ, ◌+◌, ◌*◌, ◌<◌, String, ◌≡◌, refl, ap, ◌∙◌, true, false, some, List, [], ◌∷◌, map, arith, ◌==◌,
  clamp, keep_where, any_where, strip,
}
use rclone.Throttle.{second}
use rclone.Outbox.{Device, Entry, Store, is_sending}
use rclone.Outbox.Queue.{
  is_due, is_before, has_id, due_ids, sweep, release_expired, fail_expired, fail_unregistered,
  claim, claim_rows, is_claimed_by, push_outbox_claim_due,
}
use rclone.Outbox.Invariant.{Rising, IsValid, map-Rising}
use rclone.Outbox.Rows.{sweep-same, claim-same}
use rclone.Outbox.Rowids.{
  find_id, find_id-map, any_where-find_id, any_where-sort_by, any_where-keep_where, has_id-due_ids,
}

find_id-id : (i : ℕ) (es : List Entry) (e : Entry) → find_id i es ≡ some e → e.id ≡ i
find_id-id i [] e h = cc
find_id-id i (x ∷ es) e h = ground (arith, find_id-id i es e)

-- The columns of a row whose lease is live.
abbrev pub IsLive : ℕ → Entry → Type 0
IsLive now e = (is_sending e.status ≡ true) × (now < e.lease_until) × (now < e.expires_at)

pub sweep-IsLive : (now : ℕ) (ds : List Device) (e : Entry) → IsLive now e → sweep now ds e ≡ e
unfolding sweep
sweep-IsLive now ds e (active, lease, wanted) =
    let kept : release_expired now e ≡ e = unfold release_expired in ground arith in
    let kept' : fail_expired now e ≡ e = unfold fail_expired in ground arith in
    rw (kept, kept') (unfold fail_unregistered in ground arith)

claim_rows_keeps :
    (owner : String) (lease now : ℕ) (ids : List ℕ) (s : Store) (i : ℕ) {e : Entry}
    → Rising 0 s.outbox
    → find_id i s.outbox ≡ some e
    → is_sending e.status ≡ true
    → has_id ids i ≡ false
    → let (claimed, s') = claim_rows owner lease now ids s in
      (find_id i s'.outbox ≡ some e) × (any_where (λ c. c.id == i) claimed ≡ false)
unfolding claim_rows
claim_rows_keeps owner lease now [] s i rise found active other = (found, refl)
claim_rows_keeps owner lease now (j ∷ ids) s i {e} rise found active other =
    let rows = map (claim owner lease now (j ∷ ids)) s.outbox in
    let kept : claim owner lease now (j ∷ ids) e ≡ e = unfold claim in ground arith in
    let found' : find_id i rows ≡ some e =
      find_id-map (claim owner lease now (j ∷ ids)) i s.outbox
        (λ x. (claim-same owner lease now (j ∷ ids) x).0)
      ∙ rw found (ap some kept) in
    let rise' : Rising 0 rows =
      map-Rising (claim owner lease now (j ∷ ids)) (claim-same owner lease now (j ∷ ids)) 0 s.outbox
        rise in
    let here = find_id-id i s.outbox e found in
    (
      found',
      any_where-sort_by (λ c. c.id == i) is_before (keep_where (is_claimed_by owner (j ∷ ids)) rows)
          ∙ (any_where-keep_where (λ c. c.id == i) (is_claimed_by owner (j ∷ ids)) rows
              ∙ (any_where-find_id (is_claimed_by owner (j ∷ ids)) i 0 rows e rise' found'
                  ∙ ground arith)),
    )

-- A row under a live lease is not claimed again: a claim by any dispatcher leaves it as it was and
-- does not return it.
pub push_outbox_claim_due-IsLive :
    (owner : String) (limit lease_seconds now : ℕ) (s s' : Store) (claimed : List Entry) (i : ℕ)
    (e : Entry)
    → IsValid s
    → push_outbox_claim_due owner limit lease_seconds now s ≡ some (claimed, s')
    → find_id i s.outbox ≡ some e
    → IsLive now e
    → (find_id i s'.outbox ≡ some e) × (any_where (λ c. c.id == i) claimed ≡ false)
unfolding push_outbox_claim_due
push_outbox_claim_due-IsLive owner limit lease_seconds now s s' claimed i e v done found live =
    let rows = map (sweep now s.devices) s.outbox in
    let rise : Rising 0 rows =
      map-Rising (sweep now s.devices) (sweep-same now s.devices) 0 s.outbox v.rising in
    let found' : find_id i rows ≡ some e =
      find_id-map (sweep now s.devices) i s.outbox (λ x. (sweep-same now s.devices x).0)
      ∙ rw found (ap some (sweep-IsLive now s.devices e live)) in
    let idle : has_id (due_ids limit now rows) i ≡ false =
      has_id-due_ids limit now i rows
        (any_where-find_id (is_due now) i 0 rows e rise found' ∙ ground arith) in
    let kept =
      claim_rows_keeps (strip owner) (now + clamp 10 300 lease_seconds * second) now
        (due_ids limit now rows) (record s { outbox = rows }) i rise found' live.0 idle in
    ground (arith, kept)
