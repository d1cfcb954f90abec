-- ===== src/Outbox/Rows.antt =====
-- What each row update of the outbox of app/db.py does to the invariant of a row.
use mathlib.Core.Bool.{◌&&◌}
use rclone.Base.{
  ℕ, ◌≤◌, String, ◌≡◌, refl, inl, inr, Bool, true, false, ◌||◌, Option, none, List, arith,
  Bool-cases, is_empty,
}
use rclone.Outbox.{Device, Status, pending, sending, sent, failed, Entry, is_pending, is_sending}
use rclone.Outbox.Queue.{
  sweep, claim, renew, fail_expired, fail_unregistered, release_expired, is_claimed_by, is_lapsed,
  is_orphaned, has_id, is_expired,
}
use rclone.Outbox.Finish.{Report, settle, settle_held, final_status, is_held}
use rclone.Outbox.Invariant.{Fits, IsRow, IsSameRow}

-- What a row's invariant says of a row that is not sent, and of one under way.
pub unsent :
    (e : Entry) → IsRow e → is_pending e.status || is_sending e.status ≡ true → e.sent_at ≡ none
unsent e h active = go e.status e.attempts e.claim_owner e.lease_until e.sent_at h active
  where
    go :
        (status : Status) (attempts : ℕ) (owner : String) (lease : ℕ) (sent_at : Option ℕ)
        → Fits status attempts owner lease sent_at
        → is_pending status || is_sending status ≡ true
        → sent_at ≡ none
    go pending attempts owner lease sent_at h active = h.2
    go sending attempts owner lease sent_at h active = h.2
    go _ attempts owner lease sent_at h active = cc

pub attempted : (e : Entry) → IsRow e → is_sending e.status ≡ true → 1 ≤ e.attempts
attempted e h active = go e.status e.attempts e.claim_owner e.lease_until e.sent_at h active
  where
    go :
        (status : Status) (attempts : ℕ) (owner : String) (lease : ℕ) (sent_at : Option ℕ)
        → Fits status attempts owner lease sent_at
        → is_sending status ≡ true
        → 1 ≤ attempts
    go sending attempts owner lease sent_at h active = h.1
    go _ attempts owner lease sent_at h active = cc

pub sweep-same : (now : ℕ) (ds : List Device) (e : Entry) → IsSameRow e (sweep now ds e)
unfolding sweep
sweep-same now ds e = ground arith

pub release_expired-IsRow : (now : ℕ) (e : Entry) → IsRow e → IsRow (release_expired now e)
unfolding release_expired
release_expired-IsRow now e h = elim (Bool-cases (is_lapsed now e)) [
  | inl hit ↦ rw hit (refl, refl, unsent e h (ground arith))
  | inr miss ↦ rw miss h
]

pub fail_expired-IsRow : (now : ℕ) (e : Entry) → IsRow e → IsRow (fail_expired now e)
unfolding fail_expired
fail_expired-IsRow now e h = elim (Bool-cases (is_expired now e)) [
  | inl hit ↦ rw hit (refl, refl, unsent e h (ground arith))
  | inr miss ↦ rw miss h
]

pub fail_unregistered-IsRow :
    (now : ℕ) (ds : List Device) (e : Entry) → IsRow e → IsRow (fail_unregistered now ds e)
unfolding fail_unregistered
fail_unregistered-IsRow now ds e h = elim (Bool-cases (is_orphaned ds e)) [
  | inl hit ↦ rw hit (refl, refl, unsent e h (ground arith))
  | inr miss ↦ rw miss h
]

pub sweep-IsRow : (now : ℕ) (ds : List Device) (e : Entry) → IsRow e → IsRow (sweep now ds e)
unfolding sweep
sweep-IsRow now ds e h =
    fail_unregistered-IsRow now ds (fail_expired now (release_expired now e))
      (fail_expired-IsRow now (release_expired now e) (release_expired-IsRow now e h))

pub claim-same :
    (owner : String) (lease now : ℕ) (ids : List ℕ) (e : Entry)
    → IsSameRow e (claim owner lease now ids e)
unfolding claim
claim-same owner lease now ids e = ground arith

pub claim-IsRow :
    (owner : String) (lease now : ℕ) (ids : List ℕ)
    → is_empty owner ≡ false
    → (e : Entry) → IsRow e
    → IsRow (claim owner lease now ids e)
unfolding claim
claim-IsRow owner lease now ids named e h =
    elim (Bool-cases (is_pending e.status && has_id ids e.id)) [
      | inl hit ↦ rw hit (named, omega arith, unsent e h (ground arith))
      | inr miss ↦ rw miss h
    ]

pub renew-same :
    (owner : String) (lease now : ℕ) (ids : List ℕ) (e : Entry)
    → IsSameRow e (renew owner lease now ids e)
unfolding renew
renew-same owner lease now ids e = ground arith

pub Fits-lease :
    (status : Status) (attempts : ℕ) (owner : String) (lease lease' : ℕ) (sent_at : Option ℕ)
    → is_sending status ≡ true
    → Fits status attempts owner lease sent_at
    → Fits status attempts owner lease' sent_at
Fits-lease sending attempts owner lease lease' sent_at active h = h
Fits-lease _ attempts owner lease lease' sent_at active h = cc

pub renew-IsRow :
    (owner : String) (lease now : ℕ) (ids : List ℕ) (e : Entry)
    → IsRow e
    → IsRow (renew owner lease now ids e)
unfolding renew
renew-IsRow owner lease now ids e h = elim (Bool-cases (is_claimed_by owner ids e)) [
  | inl hit ↦
      rw hit (
        Fits-lease e.status e.attempts e.claim_owner e.lease_until lease e.sent_at (ground arith) h)
  | inr miss ↦ rw miss h
]

pub settle_held-same :
    (r : Report) (now id : ℕ) (owner : String) (status : Status) (e : Entry)
    → IsSameRow e (settle_held r now id owner status e)
unfolding settle_held
settle_held-same r now id owner status e = ground arith

-- The status that `finish_row` passes: never under way, and delivered exactly if it was sent.
abbrev pub IsSettled : Bool → Status → Type 0
IsSettled was_sent pending = was_sent ≡ false
IsSettled was_sent sending = ⊥
IsSettled was_sent sent = was_sent ≡ true
IsSettled was_sent failed = was_sent ≡ false

pub settle-IsRow :
    (r : Report) (now : ℕ) (status : Status) (e : Entry)
    → IsSettled r.was_sent status
    → 1 ≤ e.attempts
    → IsRow (settle r now status e)
unfolding settle
settle-IsRow r now pending e ok tried = rw ok (refl, refl, refl)
settle-IsRow r now sending e ok tried = absurd ok
settle-IsRow r now sent e ok tried = rw ok (refl, refl, tried, refl)
settle-IsRow r now failed e ok tried = rw ok (refl, refl, refl)

pub settle_held-IsRow :
    (r : Report) (now id : ℕ) (owner : String) (status : Status)
    → IsSettled r.was_sent status
    → (e : Entry) → IsRow e
    → IsRow (settle_held r now id owner status e)
unfolding settle_held
settle_held-IsRow r now id owner status ok e h = elim (Bool-cases (is_held id owner e)) [
  | inl hit ↦ rw hit (settle-IsRow r now status e ok (attempted e h (ground arith)))
  | inr miss ↦ rw miss h
]

pub final_status-IsSettled :
    (r : Report) (now : ℕ) (ds : List Device) (e : Entry)
    → IsSettled r.was_sent (final_status r now ds e)
unfolding final_status
final_status-IsSettled r now ds e = ground arith
