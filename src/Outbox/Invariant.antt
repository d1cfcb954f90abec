-- ===== src/Outbox/Invariant.antt =====
-- The invariant of the outbox tables of app/db.py, kept by every operation on them.
use rclone.Base.{
  ℕ, ◌+◌, ◌≤◌, ◌<◌, String, ◌≡◌, refl, Bool, true, false, Option, none, List, [], ◌∷◌, map, arith,
  is_some, All, keep_where, any_where, keep_where-All, is_empty,
}
use rclone.Outbox.{Device, Status, pending, sending, sent, failed, Entry, Store}
use rclone.Outbox.Queue.{same_delivery}

-- Owner, lease and delivery time fit the status: exactly a row under way has an owner.
abbrev pub Fits : Status → ℕ → String → ℕ → Option ℕ → Type 0
Fits pending attempts owner lease sent_at = (is_empty owner ≡ true) × (lease ≡ 0) × (sent_at ≡ none)
Fits sending attempts owner lease sent_at =
    (is_empty owner ≡ false) × (1 ≤ attempts) × (sent_at ≡ none)
Fits sent attempts owner lease sent_at =
    (is_empty owner ≡ true) × (lease ≡ 0) × (1 ≤ attempts) × (is_some sent_at ≡ true)
Fits failed attempts owner lease sent_at = (is_empty owner ≡ true) × (lease ≡ 0) × (sent_at ≡ none)

abbrev pub IsRow : Entry → Type 0
IsRow e = Fits e.status e.attempts e.claim_owner e.lease_until e.sent_at

-- The ids rise along the table, from `low`.
abbrev pub Rising : ℕ → List Entry → Type 0
Rising low [] = Unit
Rising low (e ∷ es) = (low ≤ e.id) × Rising (e.id + 1) es

-- `UNIQUE(dedupe_key, token)`
abbrev pub HasUniqueDeliveries : List Entry → Type 0
HasUniqueDeliveries [] = Unit
HasUniqueDeliveries (e ∷ es) =
    (any_where (same_delivery e.dedupe_key e.token) es ≡ false) × HasUniqueDeliveries es

pub record IsValid (s : Store) : Type 0 where
  pub rows : All IsRow s.outbox
  pub rising : Rising 0 s.outbox
  pub fresh : All (λ e. e.id < s.next_id) s.outbox
  pub unique : HasUniqueDeliveries s.outbox

-- The columns that no update touches.
abbrev pub IsSameRow : Entry → Entry → Type 0
IsSameRow e e' = (e'.id ≡ e.id) × (e'.dedupe_key ≡ e.dedupe_key) × (e'.token ≡ e.token)

module _ (f : Entry → Entry) (same : (e : Entry) → IsSameRow e (f e)) where
  pub map-Rising : (low : ℕ) (es : List Entry) → Rising low es → Rising low (map f es)
  map-Rising low [] h = tt
  map-Rising low (e ∷ es) h = ground (arith, same e, map-Rising (e.id + 1) es h.1)

  map-fresh : (n : ℕ) (es : List Entry) → All (λ e. e.id < n) es → All (λ e. e.id < n) (map f es)
  map-fresh n [] h = tt
  map-fresh n (e ∷ es) h = ground (arith, same e, map-fresh n es h.1)

  any_where-map :
      (k t : String) (es : List Entry)
      → any_where (same_delivery k t) (map f es) ≡ any_where (same_delivery k t) es
  any_where-map k t [] = refl
  any_where-map k t (e ∷ es) = ground (arith, same e, any_where-map k t es)

  map-HasUniqueDeliveries :
      (es : List Entry) → HasUniqueDeliveries es → HasUniqueDeliveries (map f es)
  map-HasUniqueDeliveries [] h = tt
  map-HasUniqueDeliveries (e ∷ es) h =
      ground (arith, same e, any_where-map e.dedupe_key e.token es, map-HasUniqueDeliveries es h.1)

  map-rows :
      ((e : Entry) → IsRow e → IsRow (f e))
      → (es : List Entry) → All IsRow es
      → All IsRow (map f es)
  map-rows keeps [] h = tt
  map-rows keeps (e ∷ es) h = (keeps e h.0, map-rows keeps es h.1)

  -- An update of rows keeps the invariant if it keeps each row's.
  pub map-IsValid :
      ((e : Entry) → IsRow e → IsRow (f e))
      → (s : Store) → IsValid s
      → IsValid (record s { outbox = map f s.outbox })
  map-IsValid keeps s v = record {
    rows = map-rows keeps s.outbox v.rows;
    rising = map-Rising 0 s.outbox v.rising;
    fresh = map-fresh s.next_id s.outbox v.fresh;
    unique = map-HasUniqueDeliveries s.outbox v.unique;
  }

module _ (p : Entry → Bool) where
  Rising-lower : (m n : ℕ) (es : List Entry) → m ≤ n → Rising n es → Rising m es
  Rising-lower m n [] h r = tt
  Rising-lower m n (e ∷ es) h r = (omega arith, r.1)

  keep_where-Rising : (low : ℕ) (es : List Entry) → Rising low es → Rising low (keep_where p es)
  keep_where-Rising low [] h = tt
  keep_where-Rising low (e ∷ es) h =
      ground
        (arith, keep_where-Rising (e.id + 1) es h.1, Rising-lower low (e.id + 1) (keep_where p es))

  any_where-keep_where :
      (q : Entry → Bool) (es : List Entry)
      → any_where q es ≡ false
      → any_where q (keep_where p es) ≡ false
  any_where-keep_where q [] h = refl
  any_where-keep_where q (e ∷ es) h = ground (arith, any_where-keep_where q es)

  keep_where-HasUniqueDeliveries :
      (es : List Entry) → HasUniqueDeliveries es → HasUniqueDeliveries (keep_where p es)
  keep_where-HasUniqueDeliveries [] h = tt
  keep_where-HasUniqueDeliveries (e ∷ es) h = ground (
    arith,
    keep_where-HasUniqueDeliveries es h.1,
    any_where-keep_where (same_delivery e.dedupe_key e.token) es h.0,
  )

  -- A deletion of rows keeps the invariant, whatever happens to the devices.
  pub keep_where-IsValid :
      (s : Store) (devices : List Device)
      → IsValid s
      → IsValid (record s { devices = devices; outbox = keep_where p s.outbox })
  keep_where-IsValid s devices v = record {
    rows = keep_where-All IsRow p s.outbox v.rows;
    rising = keep_where-Rising 0 s.outbox v.rising;
    fresh = keep_where-All (λ e. e.id < s.next_id) p s.outbox v.fresh;
    unique = keep_where-HasUniqueDeliveries s.outbox v.unique;
  }
