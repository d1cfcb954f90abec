-- ===== src/Outbox/Insertion.antt =====
-- Insertions into the outbox of app/db.py keep its invariant.
use rclone.Base.{
  ℕ, ◌+◌, ◌≤◌, ◌<◌, String, ◌≡◌, refl, inl, inr, Bool, false, ◌||◌, List, [], ◌∷◌, ◌++◌, arith,
  eq_iff, Bool-cases, All, any_where, All-append,
}
use rclone.Outbox.{Device, Entry, Store}
use rclone.Outbox.Queue.{Notice, new_entry, same_delivery, insert_or_ignore, enqueue_each}
use rclone.Outbox.Invariant.{IsRow, Rising, HasUniqueDeliveries, IsValid}

pub Rising-append :
    (low n : ℕ) (es : List Entry) (e : Entry)
    → Rising low es
    → All (λ x. x.id < n) es
    → low ≤ n
    → e.id ≡ n
    → Rising low (es ++ (e ∷ []))
Rising-append low n [] e r below h same = ground arith
Rising-append low n (x ∷ es) e r below h same =
    (r.0, Rising-append (x.id + 1) n es e r.1 below.1 (omega arith) same)

pub fresh-suc : (n : ℕ) (es : List Entry) → All (λ x. x.id < n) es → All (λ x. x.id < n + 1) es
fresh-suc n [] h = tt
fresh-suc n (e ∷ es) h = (omega arith, fresh-suc n es h.1)

pub any_where-append :
    (q : Entry → Bool) (es : List Entry) (e : Entry)
    → any_where q (es ++ (e ∷ [])) ≡ any_where q es || q e
any_where-append q [] e = ground arith
any_where-append q (x ∷ es) e = ground (arith, any_where-append q es e)

pub HasUniqueDeliveries-append :
    (es : List Entry) (e : Entry)
    → HasUniqueDeliveries es
    → any_where (same_delivery e.dedupe_key e.token) es ≡ false
    → HasUniqueDeliveries (es ++ (e ∷ []))
HasUniqueDeliveries-append [] e u new = ground arith
HasUniqueDeliveries-append (x ∷ es) e u new = ground (
  arith,
  eq_iff x.dedupe_key e.dedupe_key,
  eq_iff e.dedupe_key x.dedupe_key,
  eq_iff x.token e.token,
  eq_iff e.token x.token,
  any_where-append (same_delivery x.dedupe_key x.token) es e,
  HasUniqueDeliveries-append es e u.1,
)

pub insert_or_ignore-IsValid :
    (e : Entry) (s : Store)
    → IsRow e
    → e.id ≡ s.next_id
    → IsValid s
    → IsValid (insert_or_ignore e s).1
unfolding insert_or_ignore
insert_or_ignore-IsValid e s row same v =
    elim (Bool-cases (any_where (same_delivery e.dedupe_key e.token) s.outbox)) [
      | inl old ↦ rw old (record {
        rows = v.rows;
        rising = v.rising;
        fresh = fresh-suc s.next_id s.outbox v.fresh;
        unique = v.unique;
      })
      | inr new ↦ rw new (record {
        rows = All-append IsRow s.outbox (e ∷ []) v.rows (row, tt);
        rising = Rising-append 0 s.next_id s.outbox e v.rising v.fresh (omega arith) same;
        fresh =
            All-append (λ x. x.id < s.next_id + 1) s.outbox (e ∷ [])
              (fresh-suc s.next_id s.outbox v.fresh) (omega arith, tt);
        unique = HasUniqueDeliveries-append s.outbox e v.unique new;
      })
    ]

pub enqueue_each-IsValid :
    (n : Notice) (now : ℕ) (uuid : ℕ → String) (i : ℕ) (ds : List Device) (s : Store)
    → IsValid s
    → IsValid (enqueue_each n now uuid i ds s).1
unfolding enqueue_each
enqueue_each-IsValid n now uuid i [] s v = v
enqueue_each-IsValid n now uuid i (d ∷ ds) s v =
    let e = new_entry n now (uuid i) s.next_id d in
    enqueue_each-IsValid n now uuid (i + 1) ds (insert_or_ignore e s).1
      (insert_or_ignore-IsValid e s (refl, refl, refl) refl v)
