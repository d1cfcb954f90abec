-- ===== src/Dispatch/Sent.antt =====
-- When a row is counted as delivered (`dispatch_pending_pushes`, `_post_with_claim_heartbeat` of
-- app/push_notifications.py).
use rclone.Outbox.{Entry, Store, failed, sent, pending, sending}
use rclone.Outbox.Finish.{Outcome, finished, not_owned, missing}
use rclone.Dispatch.{
  Moment, Answer, response, broken, Delivery, Counts, retry_delay, is_retryable, is_invalid_token,
  report, renew_at, finish_at, counted, Guarded, lost, revoked, clear, guard_row, keep_claim,
  remove_device, settle_answer, post_row, on_error, deliver_configured, deliver_held, deliver,
}
use rclone.Base.{
  ℕ, ◌≤◌, ◌≡◌, refl, String, Bool, true, false, ◌&&◌, Option, none, some, List, [], ◌∷◌, ◌==◌,
  if◌then◌else◌, if-both, arith, Bool-cases, inl, inr,
}

abbrev pub IsAccepted : Answer → Type 0
IsAccepted (response code reason error after) = code ≡ 200
IsAccepted (broken error) = ⊥

-- Every renewal while the row was posted found the claim.
unfoldable pub renewed_throughout : List Moment → ℕ → String → ℕ → Store → Bool
unfolding renew_at
renewed_throughout [] id owner lease s = true
renewed_throughout (m ∷ ms) id owner lease s =
    let (held, s') = renew_at m (id ∷ []) id owner lease s in
    held && renewed_throughout ms id owner lease s'

counted_none : (o : Outcome) → (counted o).sent_rows ≡ 0
counted_none (finished pending) = refl
counted_none (finished sending) = refl
counted_none (finished sent) = refl
counted_none (finished failed) = refl
counted_none not_owned = refl
counted_none missing = refl

module _ (d : Delivery) (e : Entry) (owner : String) where
  remove_device_none : (o : Outcome) (s : Store) → (remove_device d e owner (o, s)).0.sent_rows ≡ 0
  unfolding remove_device
  remove_device_none (finished pending) s = refl
  remove_device_none (finished sending) s = refl
  remove_device_none (finished sent) s = refl
  remove_device_none (finished failed) s = refl
  remove_device_none not_owned s = refl
  remove_device_none missing s = refl

  settle_answer-IsAccepted :
      (n : ℕ) (answer : Answer) (s : Store)
      → 1 ≤ (settle_answer d e owner n answer s).0.sent_rows
      → IsAccepted answer
  unfolding settle_answer
  settle_answer-IsAccepted n (broken error) s h =
      let r = report false true (retry_delay e (broken error)) error n in
      omega (arith, h, counted_none (finish_at d.ended e.id owner r s).0)
  settle_answer-IsAccepted n (response code reason error after) s h =
      let delay = retry_delay e (response code reason error after) in
      let refused = finish_at d.ended e.id owner (report false false 60 error 8) s in
      let again =
        finish_at d.ended e.id owner (report false (is_retryable code reason) delay error n) s in
      let nothing : (if is_invalid_token code reason
            then remove_device d e owner refused
            else (counted again.0, again.1)).0.sent_rows
          ≡ 0 =
        if-both {A = Counts × Store} (λ r. r.0.sent_rows ≡ 0) (is_invalid_token code reason)
          (remove_device d e owner refused) (counted again.0, again.1)
          (remove_device_none refused.0 refused.1) (counted_none again.0) in
      elim (Bool-cases (code == 200)) [
        | inl ok ↦ ground (arith, ok)
        | inr other ↦ absurd (omega (arith, nothing, rw other at h))
      ]

  module _ (lease : ℕ) where
    keep_claim-IsAccepted :
        (ms : List Moment) (answer : Answer) (s : Store)
        → IsAccepted (keep_claim ms e.id owner lease answer s).0
        → IsAccepted answer × (renewed_throughout ms e.id owner lease s ≡ true)
    unfolding keep_claim renewed_throughout
    keep_claim-IsAccepted [] answer s h = (h, refl)
    keep_claim-IsAccepted (m ∷ ms) answer s h =
        elim (Bool-cases (renew_at m (e.id ∷ []) e.id owner lease s).0) [
          | inl held ↦
              let rest =
                keep_claim-IsAccepted ms answer (renew_at m (e.id ∷ []) e.id owner lease s).1
                  (rw held at h) in
              (rest.0, rw held rest.1)
          | inr gone ↦ absurd (rw gone at h)
        ]

    -- The guard let the row be posted, APNs took it, and the claim was held meanwhile.
    abbrev pub IsPosted : Guarded → Type 0
    IsPosted (lost s) = ⊥
    IsPosted (revoked s) = ⊥
    IsPosted (clear s) =
        IsAccepted d.answer × (renewed_throughout d.heartbeats e.id owner lease s ≡ true)

    post_row-IsPosted :
        (n : ℕ) (g : Guarded) → 1 ≤ (post_row d e owner lease n g).0.sent_rows → IsPosted g
    unfolding post_row
    post_row-IsPosted n (lost s) h = absurd (omega (arith, h))
    post_row-IsPosted n (revoked s) h = absurd (omega (arith, h))
    post_row-IsPosted n (clear s) h =
        let kept = keep_claim d.heartbeats e.id owner lease d.answer s in
        keep_claim-IsAccepted d.heartbeats d.answer s (settle_answer-IsAccepted n kept.0 kept.1 h)

    on_error-IsPosted :
        (n : ℕ) (o : Option String) (P : Type 0) (r : Counts × Store) (s : Store)
        → (1 ≤ r.0.sent_rows → P)
        → 1 ≤ (on_error o (λ error. settle_answer d e owner n (broken error) s) r).0.sent_rows
        → P
    on_error-IsPosted n none P r s posted h = posted h
    on_error-IsPosted n (some error) P r s posted h =
        absurd (settle_answer-IsAccepted n (broken error) s h)

    deliver_configured-IsPosted :
        (n : ℕ) (s : Store)
        → 1 ≤ (deliver_configured d e owner lease n s).0.sent_rows
        → IsPosted (guard_row d e owner lease s)
    unfolding deliver_configured
    deliver_configured-IsPosted n s h =
        let g = guard_row d e owner lease s in
        let posted = post_row d e owner lease n g in
        on_error-IsPosted n d.token_error (IsPosted g)
          (on_error d.guard_error (λ error. settle_answer d e owner n (broken error) s) posted) s
          (on_error-IsPosted n d.guard_error (IsPosted g) posted s (post_row-IsPosted n g)) h

    deliver_held-IsPosted :
        (o : Option ℕ) (s : Store)
        → 1 ≤ (deliver_held d e owner lease s o).0.sent_rows
        → IsPosted (guard_row d e owner lease s)
    unfolding deliver_held
    deliver_held-IsPosted none s h =
        let r = report false false 60 "APNs ist für dieses Event nicht mehr konfiguriert" 8 in
        absurd (omega (arith, h, counted_none (finish_at d.ended e.id owner r s).0))
    deliver_held-IsPosted (some n) s h = deliver_configured-IsPosted (if n == 0 then 8 else n) s h

-- A row is counted as delivered only if its claim was held when its turn came, the guard let it be
-- posted, every renewal during the POST found the claim, and APNs answered with 200.
pub deliver-IsPosted :
    (d : Delivery) (e : Entry) (remaining : List ℕ) (owner : String) (lease : ℕ) (s : Store)
    → 1 ≤ (deliver d e remaining owner lease s).0.sent_rows
    → ((renew_at d.renewed remaining e.id owner lease s).0 ≡ true)
      × IsPosted d e owner lease
          (guard_row d e owner lease (renew_at d.renewed remaining e.id owner lease s).1)
unfolding deliver
deliver-IsPosted d e remaining owner lease s h =
    let r = renew_at d.renewed remaining e.id owner lease s in
    elim (Bool-cases r.0) [
      | inl held ↦ (held, deliver_held-IsPosted d e owner lease d.max_attempts r.1 (rw held at h))
      | inr gone ↦ absurd (omega (arith, rw gone at h))
    ]
