-- ===== src/Outbox/Claims.antt =====
-- The rows that a claim on the outbox of app/db.py returns.
use mathlib.Core.Option
use rclone.Base.{
  ℕ, ◌+◌, ◌*◌, ◌≤◌, ◌<◌, String, ◌≡◌, inl, inr, true, some, List, [], ◌∷◌, map, arith, clamp,
  Bool-cases, All, Option, none, sym, ◌∙◌, strip, keep_where-All_of, sort_by-All,
}
use rclone.Throttle.{second}
use rclone.Outbox.{Device, Entry, Store, sending, is_pending}
use rclone.Outbox.Queue.{
  is_due, is_before, due_ids, sweep, release_expired, fail_expired, fail_unregistered, claim,
  claim_rows, is_claimed_by, is_registered, push_outbox_claim_due,
}
use rclone.Outbox.Invariant.{Rising, IsValid, map-Rising}
use rclone.Outbox.Rows.{sweep-same}
use rclone.Outbox.Rowids.{find_id, find_id-map, any_where-find_id, find_id_self, has_id-due_ids}

-- A row that the claim hands out.
pub record IsClaim (owner : String) (lease now : ℕ) (s : Store) (c : Entry) : Type 0 where
  pub active : c.status ≡ sending
  pub owned : c.claim_owner ≡ owner
  pub leased : c.lease_until ≡ lease
  pub counted : Option.map (λ e. e.attempts + 1) (find_id c.id s.outbox) ≡ some c.attempts
  pub due : c.next_attempt_at ≤ now
  pub wanted : now < c.expires_at
  pub registered : is_registered s.devices c.token ≡ true

-- What the sweep leaves pending is registered.
abbrev IsSwept : List Device → Entry → Type 0
IsSwept ds e = is_pending e.status ≡ true → is_registered ds e.token ≡ true

fail_unregistered-IsSwept :
    (now : ℕ) (ds : List Device) (e : Entry) → IsSwept ds (fail_unregistered now ds e)
unfolding fail_unregistered
fail_unregistered-IsSwept now ds e h = ground arith

sweep-IsSwept : (now : ℕ) (ds : List Device) (e : Entry) → IsSwept ds (sweep now ds e)
unfolding sweep
sweep-IsSwept now ds e = fail_unregistered-IsSwept now ds (fail_expired now (release_expired now e))

-- The sweep keeps the attempts of a row.
sweep_attempts :
    (now : ℕ) (ds : List Device) (o : Option Entry) (e : Entry)
    → Option.map (sweep now ds) o ≡ some e
    → Option.map (λ x. x.attempts + 1) o ≡ some (e.attempts + 1)
unfolding sweep release_expired fail_expired fail_unregistered
sweep_attempts now ds none e h = cc
sweep_attempts now ds (some x) e h = ground (arith, h)

attempts_before :
    (now : ℕ) (s : Store) (e : Entry)
    → find_id e.id (map (sweep now s.devices) s.outbox) ≡ some e
    → Option.map (λ x. x.attempts + 1) (find_id e.id s.outbox) ≡ some (e.attempts + 1)
attempts_before now s e found = sweep_attempts now s.devices (find_id e.id s.outbox) e (
    sym (find_id-map (sweep now s.devices) e.id s.outbox (λ x. (sweep-same now s.devices x).0))
    ∙ found)

claim-IsClaim :
    (owner : String) (lease now : ℕ) (limit : ℕ) (s : Store) (e : Entry)
    → let rows = map (sweep now s.devices) s.outbox in
      Rising 0 rows
      → find_id e.id rows ≡ some e
      → IsSwept s.devices e
      → let ids = due_ids limit now rows in
        let c = claim owner lease now ids e in
        is_claimed_by owner ids c ≡ true → IsClaim owner lease now s c
unfolding claim
claim-IsClaim owner lease now limit s e rise found swept held =
    let rows = map (sweep now s.devices) s.outbox in
    let before = attempts_before now s e found in
    elim (Bool-cases (is_due now e)) [
      | inl due ↦ ground (arith, swept, before)
      | inr idle ↦
          let other =
            has_id-due_ids limit now e.id rows
              (any_where-find_id (is_due now) e.id 0 rows e rise found ∙ idle) in
          ground arith
    ]

claims :
    (owner : String) (lease now limit : ℕ) (s : Store) (es : List Entry)
    → let rows = map (sweep now s.devices) s.outbox in
      Rising 0 rows
      → All (λ e. find_id e.id rows ≡ some e) es
      → All (IsSwept s.devices) es
      → let ids = due_ids limit now rows in
        All
          (λ c. is_claimed_by owner ids c ≡ true → IsClaim owner lease now s c)
          (map (claim owner lease now ids) es)
claims owner lease now limit s [] rise found swept = tt
claims owner lease now limit s (e ∷ es) rise found swept = (
  claim-IsClaim owner lease now limit s e rise found.0 swept.0,
  claims owner lease now limit s es rise found.1 swept.1,
)

swept : (now : ℕ) (ds : List Device) (es : List Entry) → All (IsSwept ds) (map (sweep now ds) es)
swept now ds [] = tt
swept now ds (e ∷ es) = (sweep-IsSwept now ds e, swept now ds es)

claim_rows-IsClaim :
    (owner : String) (lease now : ℕ) (ids : List ℕ) (s old : Store)
    → All
        (λ c. is_claimed_by owner ids c ≡ true → IsClaim owner lease now old c)
        (map (claim owner lease now ids) s.outbox)
    → All (IsClaim owner lease now old) (claim_rows owner lease now ids s).0
unfolding claim_rows
claim_rows-IsClaim owner lease now [] s old h = tt
claim_rows-IsClaim owner lease now (i ∷ ids) s old h =
    sort_by-All (IsClaim owner lease now old) is_before _
      (keep_where-All_of (IsClaim owner lease now old) (is_claimed_by owner (i ∷ ids)) _ h)

-- Every row that a claim returns is under way for the caller with the lease asked for, was due, has
-- not expired, has one attempt more than before, and belongs to a device that is still registered.
pub push_outbox_claim_due-IsClaim :
    (owner : String) (limit lease_seconds now : ℕ) (s s' : Store) (claimed : List Entry)
    → IsValid s
    → push_outbox_claim_due owner limit lease_seconds now s ≡ some (claimed, s')
    → All (IsClaim (strip owner) (now + clamp 10 300 lease_seconds * second) now s) claimed
unfolding push_outbox_claim_due
push_outbox_claim_due-IsClaim owner limit lease_seconds now s s' claimed v done =
    let rows = map (sweep now s.devices) s.outbox in
    let rise : Rising 0 rows =
      map-Rising (sweep now s.devices) (sweep-same now s.devices) 0 s.outbox v.rising in
    let lease = now + clamp 10 300 lease_seconds * second in
    let ids = due_ids limit now rows in
    let all =
      claim_rows-IsClaim (strip owner) lease now ids (record s { outbox = rows }) s
        (claims (strip owner) lease now limit s rows rise (find_id_self 0 rows rise)
          (swept now s.devices s.outbox)) in
    let same : (claim_rows (strip owner) lease now ids (record s { outbox = rows })).0 ≡ claimed =
      ground arith in
    rw same at all
