-- ===== src/Dispatch/Posting.antt =====
-- When a row is posted to APNs, and when it is tried again (`dispatch_pending_pushes`, `_retry_delay`
-- of app/push_notifications.py).
use rclone.Outbox.{Entry, Store, pending, push_device_exists}
use rclone.Throttle.{second}
use mathlib.Core.Path.{subst}
use rclone.Outbox.Queue.{has_id, is_claimed_by, renew, renew_rows, push_outbox_renew_claims}
use rclone.Outbox.Finish.{is_held, settle}
use rclone.Outbox.Invariant.{IsValid}
use rclone.Outbox.Rowids.{find_id, any_where-find_id}
use rclone.Outbox.Kept.{is_own, run-IsKept}
use rclone.Dispatch.Validity.{renew_at-IsValid}
use rclone.Outbox.Steps.{run, after}
use rclone.Dispatch.{
  Answer, broken, report, Delivery, Guarded, lost, revoked, clear, ids_of, renew_at, guard_row,
  retry_delay, retry_after_of,
}
use rclone.Base.{
  ℕ, zero, suc, ◌+◌, ◌-◌, ◌*◌, ◌^◌, ◌≤◌, min, max, String, ◌≡◌, refl, sym, ap, ◌∙◌, Bool, true,
  false, ◌&&◌, ◌||◌, none, some, List, [], ◌∷◌, map, arith, ltb, ◌==◌, clamp, any_where, keep_where,
  sort_by, insert_by, strip, is_empty, if-both, ◌<◌, ◌⊎◌, inl, inr, Bool-cases, All,
}

-- The row is under way for the owner, and its lease ends at this time.
abbrev pub is_leased : ℕ → String → ℕ → Entry → Bool
is_leased id owner until e = is_held id owner e && e.lease_until == until

has_id-insert :
    (id x : ℕ) (xs : List ℕ) → has_id (insert_by ltb x xs) id ≡ (id == x || has_id xs id)
has_id-insert id x [] = refl
has_id-insert id x (y ∷ ys) = ground (arith, has_id-insert id x ys)

has_id-sort : (id : ℕ) (xs : List ℕ) → has_id (sort_by ltb xs) id ≡ has_id xs id
has_id-sort id [] = refl
has_id-sort id (x ∷ xs) =
    has_id-insert id x (sort_by ltb xs) ∙ ap (λ b. id == x || b) (has_id-sort id xs)

renewed_row :
    (id until now : ℕ) (owner : String) (es : List Entry)
    → has_id
        (map
          (λ e. e.id)
          (keep_where (is_claimed_by owner (id ∷ [])) (map (renew owner until now (id ∷ [])) es)))
        id
      ≡ true
    → any_where (is_leased id owner until) (map (renew owner until now (id ∷ [])) es) ≡ true
unfolding renew
renewed_row id until now owner [] h = ground (arith, h)
renewed_row id until now owner (e ∷ es) h = ground (arith, h, renewed_row id until now owner es)

abbrev held_ids : ℕ → ℕ → ℕ → String → Store → List ℕ
held_ids id until now owner s =
    map (λ e. e.id)
      (keep_where (is_claimed_by owner (id ∷ [])) (map (renew owner until now (id ∷ [])) s.outbox))

-- What a renewal that replies the row leaves of it.
renew_claims-IsLeased :
    (id lease now : ℕ) (owner : String) (s : Store)
    → has_id (ids_of (push_outbox_renew_claims (id ∷ []) owner lease now s)) id ≡ true
    → any_where
        (is_leased id (strip owner) (now + clamp 10 300 lease * second))
        (after s (push_outbox_renew_claims (id ∷ []) owner lease now s)).outbox
      ≡ true
unfolding push_outbox_renew_claims renew_rows
renew_claims-IsLeased id lease now owner s h =
    let until = now + clamp 10 300 lease * second in
    if-both
      (λ o.
        has_id (ids_of o) id ≡ true
        → any_where (is_leased id (strip owner) until) (after s o).outbox ≡ true)
      (is_empty (strip owner)) none (some (renew_rows (strip owner) until now (id ∷ []) s))
      (λ never. ground (arith, never))
      (λ replied.
        renewed_row id until now (strip owner) s.outbox
          (sym (has_id-sort id (held_ids id until now (strip owner) s)) ∙ replied))
      h

-- Where the guard lets the row be posted, the renewal found the claim, and the device is registered
-- after the calls that other workers made since.
abbrev IsCleared : Delivery → Entry → String → ℕ → Store → Guarded → Type 0
IsCleared d e owner lease s (lost s') = Unit
IsCleared d e owner lease s (revoked s') = Unit
IsCleared d e owner lease s (clear s') =
    let renewed = renew_at d.checked (e.id ∷ []) e.id owner lease s in
    (renewed.0 ≡ true)
    × (run d.looked.others renewed.1 ≡ s')
    × (push_device_exists e.token d.looked.now s' ≡ true)

guard_row-IsCleared :
    (d : Delivery) (e : Entry) (owner : String) (lease : ℕ) (s : Store)
    → IsCleared d e owner lease s (guard_row d e owner lease s)
unfolding guard_row
guard_row-IsCleared d e owner lease s =
    let renewed = renew_at d.checked (e.id ∷ []) e.id owner lease s in
    let later = run d.looked.others renewed.1 in
    elim (Bool-cases renewed.0) [
      | inl held ↦ elim (Bool-cases (push_device_exists e.token d.looked.now later)) [
        | inl there ↦ rw (held, there) (held, refl, there)
        | inr gone ↦ rw (held, gone) tt
      ]
      | inr lost_claim ↦ rw lost_claim tt
    ]

any_where-is_leased :
    (id until : ℕ) (owner : String) (es : List Entry)
    → any_where (λ e. is_leased id owner until e && e.id == id) es
      ≡ any_where (is_leased id owner until) es
any_where-is_leased id until owner [] = refl
any_where-is_leased id until owner (e ∷ es) = ground (arith, any_where-is_leased id until owner es)

-- The row that a renewal replied, found by its id.
renewed-is_leased :
    (d : Delivery) (e : Entry) (owner : String) (lease : ℕ) (s : Store) (r : Entry)
    → let renewed = renew_at d.checked (e.id ∷ []) e.id owner lease s in
      IsValid renewed.1
      → renewed.0 ≡ true
      → find_id e.id renewed.1.outbox ≡ some r
      → is_leased e.id (strip owner) (d.checked.now + clamp 10 300 lease * second) r ≡ true
unfolding renew_at
renewed-is_leased d e owner lease s r v held found =
    let until = d.checked.now + clamp 10 300 lease * second in
    let rows = (renew_at d.checked (e.id ∷ []) e.id owner lease s).1.outbox in
    sym (any_where-find_id (is_leased e.id (strip owner) until) e.id 0 rows r v.rising found)
    ∙ (any_where-is_leased e.id until (strip owner) rows
        ∙ renew_claims-IsLeased e.id lease d.checked.now owner (run d.checked.others s) held)

-- `IsKept` with the id of its own.
abbrev IsKeptAs : ℕ → Entry → Store → Type 0
IsKeptAs i r s = (i < s.next_id) × ((find_id i s.outbox ≡ none) ⊎ (find_id i s.outbox ≡ some r))

find_id-below :
    (i n : ℕ) (es : List Entry) (r : Entry) → All (λ x. x.id < n) es → find_id i es ≡ some r → i < n
find_id-below i n [] r below h = cc
find_id-below i n (e ∷ es) r below h = elim (Bool-cases (e.id == i)) [
  | inl here ↦ ground (arith, here, below.0)
  | inr other ↦ find_id-below i n es r below.1 (rw other at h)
]

-- When a guard lets a row be posted, its device is registered, and the row is under way for this
-- dispatcher until its new lease ends, or it was deleted since: no other dispatcher holds it, if what
-- the other workers called since the renewal fell into the lease and the row's lifetime.
pub guard_row-IsLeased :
    (d : Delivery) (e : Entry) (owner : String) (lease : ℕ) (s s' : Store) (r : Entry)
    → IsValid s
    → guard_row d e owner lease s ≡ clear s'
    → find_id e.id (renew_at d.checked (e.id ∷ []) e.id owner lease s).1.outbox ≡ some r
    → All
        (λ c. (c.0 < r.lease_until) × (c.0 < r.expires_at) × (is_own r.claim_owner c.1 ≡ false))
        d.looked.others
    → (push_device_exists e.token d.looked.now s' ≡ true)
      × (is_leased e.id (strip owner) (d.checked.now + clamp 10 300 lease * second) r ≡ true)
      × ((find_id e.id s'.outbox ≡ none) ⊎ (find_id e.id s'.outbox ≡ some r))
guard_row-IsLeased d e owner lease s s' r v posted found in_time =
    let (held, later, there) =
      subst (IsCleared d e owner lease s) posted (guard_row-IsCleared d e owner lease s) in
    let renewed = (renew_at d.checked (e.id ∷ []) e.id owner lease s).1 in
    let valid = renew_at-IsValid d.checked (e.id ∷ []) e.id owner lease s v in
    let leased = renewed-is_leased d e owner lease s r valid held found in
    let same : r.id ≡ e.id = ground (arith, leased) in
    let low : e.id < renewed.next_id =
      find_id-below e.id renewed.next_id renewed.outbox r valid.fresh found in
    let start = subst (λ i. IsKeptAs i r renewed) (sym same) (low, inr found) in
    let kept = run-IsKept r d.looked.others renewed (ground (arith, leased)) in_time valid start in
    let here = subst (λ i. IsKeptAs i r (run d.looked.others renewed)) same kept in
    (there, leased, (subst (IsKeptAs e.id r) later here).1)

pow_pos : (n : ℕ) → 1 ≤ 2 ^ n
pow_pos zero = omega arith
pow_pos (suc n) = omega (arith, pow_pos n)

pow_mono : (m n : ℕ) → m ≤ n → 2 ^ m ≤ 2 ^ n
pow_mono zero n h = pow_pos n
pow_mono (suc m) zero h = absurd (omega (arith, h))
pow_mono (suc m) (suc n) h = omega (arith, pow_mono m n (omega (arith, h)))

-- One more attempt doubles the delay, until the eighth.
backs_off :
    (first next : ℕ)
    → first ≤ 7
    → min (suc first) 7 ≤ next
    → min 3600 (2 * min 3600 (30 * 2 ^ first)) ≤ min 3600 (30 * 2 ^ next)
backs_off first next low more = elim (Bool-cases (ltb first 7)) [
  | inl below ↦ omega (arith, pow_mono (suc first) next (ground (arith, below, more)))
  | inr above ↦
      let there : 7 ≤ first = ground (arith, above) in
      omega (arith, pow_mono 7 first there, pow_mono 7 next (omega (arith, there, more)))
]

retry_delay-bounds :
    (e : Entry) (answer : Answer)
    → (30 ≤ retry_delay e answer)
      × (retry_after_of answer ≤ retry_delay e answer)
      × (retry_delay e answer ≤ max 3600 (retry_after_of answer))
unfolding retry_delay
retry_delay-bounds e answer = omega (arith, pow_pos (min (max 1 e.attempts - 1) 7))

retry_delay-broken :
    (e : Entry) (error : String)
    → retry_delay e (broken error) ≡ min 3600 (30 * 2 ^ min (max 1 e.attempts - 1) 7)
unfolding retry_delay
retry_delay-broken e error = omega arith

-- A row that is tried again is due not before what APNs asks for, a day at most, nor before half a
-- minute, and not later than an hour or that; without an answer the delay doubles at least with each
-- attempt, up to an hour.
pub retry_delay-backs_off :
    (e later : Entry) (answer : Answer) (error : String) (max_attempts now : ℕ)
    → 1 ≤ e.attempts
    → e.attempts < later.attempts
    → let r = report false true (retry_delay e answer) error max_attempts in
      let again = (settle r now pending e).next_attempt_at in
      (now + min 86400 (max 30 (retry_after_of answer)) * second ≤ again)
      × (again ≤ now + max 3600 (min 86400 (retry_after_of answer)) * second)
      × (min 3600 (2 * retry_delay e (broken error)) ≤ retry_delay later (broken error))
unfolding settle
retry_delay-backs_off e later answer error max_attempts now tried more =
    let (half_minute, asked, hour) = retry_delay-bounds e answer in
    let first = min (max 1 e.attempts - 1) 7 in
    let next = min (max 1 later.attempts - 1) 7 in
    (
      omega (arith, half_minute, asked),
      omega (arith, half_minute, hour),
      rw (retry_delay-broken e error, retry_delay-broken later error)
          (backs_off first next (omega arith) (omega (arith, tried, more))),
    )
