-- ===== src/Outbox/Outcomes.antt =====
-- What `push_outbox_finish` of app/db.py does on each branch.
use rclone.Base.{
  ℕ, ◌+◌, max, String, ◌≡◌, refl, ap, ◌∙◌, ◌≢◌, Bool, true, false, ◌&&◌, Option, none, some, List,
  [], ◌∷◌, map, arith, ltb, ◌==◌, if◌then◌else◌, is_some, any_where, find_where, strip, is_empty,
}
use mathlib.Core.Bool.{◌&&◌}
use rclone.Outbox.{Entry, Store, Status, pending, sent, failed}
use rclone.Outbox.Queue.{is_registered}
use rclone.Outbox.Finish.{
  Report, finished, not_owned, missing, is_held, final_status, settle, settle_held, finish_row,
  push_outbox_finish,
}
use rclone.Outbox.Invariant.{Rising, IsValid}
use rclone.Outbox.Rows.{settle_held-same}
use rclone.Outbox.Rowids.{find_id, find_id-map, find_id-low}

-- Whether the row of this id is under way for this owner.
abbrev pub holds : ℕ → String → Option Entry → Bool
holds id owner none = false
holds id owner (some e) = is_held id owner e

find_where-held :
    (id : ℕ) (owner : String) (low : ℕ) (es : List Entry)
    → Rising low es
    → find_where (is_held id owner) es
      ≡ (if holds id owner (find_id id es) then find_id id es else none)
find_where-held id owner low [] rise = refl
find_where-held id owner low (e ∷ es) rise =
    ground
      (arith, find_id-low id (e.id + 1) es rise.1, find_where-held id owner (e.id + 1) es rise.1)

any_where-find :
    (id : ℕ) (es : List Entry) → any_where (λ e. e.id == id) es ≡ is_some (find_id id es)
any_where-find id [] = refl
any_where-find id (e ∷ es) = ground (arith, any_where-find id es)

-- A dispatcher that does not hold the row changes nothing, and learns whether the row exists.
pub push_outbox_finish_refused :
    (id : ℕ) (owner : String) (r : Report) (now : ℕ) (s : Store)
    → IsValid s
    → is_empty (strip owner) ≡ false
    → holds id (strip owner) (find_id id s.outbox) ≡ false
    → push_outbox_finish id owner r now s
      ≡ some (if is_some (find_id id s.outbox) then not_owned else missing, s)
unfolding push_outbox_finish finish_row
push_outbox_finish_refused id owner r now s v named free =
    ground (arith, find_where-held id (strip owner) 0 s.outbox v.rising, any_where-find id s.outbox)

find_id-settle_held :
    (r : Report) (now id : ℕ) (owner : String) (status : Status) (other : ℕ) (es : List Entry)
    → other ≢ id
    → find_id other (map (settle_held r now id owner status) es) ≡ find_id other es
unfolding settle_held
find_id-settle_held r now id owner status other [] differ = refl
find_id-settle_held r now id owner status other (e ∷ es) differ = ground (
  arith,
  settle_held-same r now id owner status e,
  find_id-settle_held r now id owner status other es differ,
)

settle_held-held :
    (r : Report) (now id : ℕ) (owner : String) (status : Status) (e : Entry)
    → is_held id owner e ≡ true
    → settle_held r now id owner status e ≡ settle r now status e
unfolding settle_held
settle_held-held r now id owner status e held = rw held

-- The holder settles exactly its row: it is sent, or pending again if a retry is asked for, the
-- device is registered, attempts are left and it has not expired, or else failed; the lease and the
-- owner are gone, and every other row is as it was.
pub push_outbox_finish_settles :
    (id : ℕ) (owner : String) (r : Report) (now : ℕ) (s : Store) (e : Entry) (other : ℕ)
    → IsValid s
    → is_empty (strip owner) ≡ false
    → find_id id s.outbox ≡ some e
    → is_held id (strip owner) e ≡ true
    → other ≢ id
    → let status =
        if r.was_sent
        then sent
        else if r.retry
            && is_registered s.devices e.token
            && ltb e.attempts (max 1 r.max_attempts)
            && ltb now e.expires_at
        then pending
        else failed in
      (s' : Store) × (push_outbox_finish id owner r now s ≡ some (finished status, s'))
      × (find_id id s'.outbox ≡ some (settle r now status e))
      × (find_id other s'.outbox ≡ find_id other s.outbox)
unfolding push_outbox_finish finish_row final_status
push_outbox_finish_settles id owner r now s e other v named found held differ =
    let status = final_status r now s.devices e in
    let settled = settle_held r now id (strip owner) status in
    (
      record s { outbox = map settled s.outbox },
      ground (arith, find_where-held id (strip owner) 0 s.outbox v.rising),
      find_id-map settled id s.outbox (λ x. (settle_held-same r now id (strip owner) status x).0)
          ∙ rw found (ap some (settle_held-held r now id (strip owner) status e held)),
      find_id-settle_held r now id (strip owner) status other s.outbox differ,
    )
