-- ===== src/Throttle/Keys.antt =====
-- The counters of app/db.py seen key by key: what each operation does to the row of any key.
use rclone.Base.{
  ℕ, max, ◌≡◌, refl, String, Bool, false, ◌||◌, none, some, List, [], ◌∷◌, arith, if◌then◌else◌,
  str_eq, eq_iff, eq_refl, Table, lookup, upsert, erase, lookup-upsert, lookup-erase,
}
use rclone.Throttle.{
  Failure, Policy, remaining, blocked_of, auth_retry_after, without, distinct, longest_block,
  auth_retry_after_many, next_failure, record_each, auth_record_failure_many, clear_each,
  auth_clear_many,
}

abbrev pub contains : String → List String → Bool
contains k [] = false
contains k (j ∷ js) = str_eq j k || contains k js

-- No key stands twice in the list.
abbrev pub IsDistinct : List String → Type 0
IsDistinct [] = Unit
IsDistinct (k ∷ ks) = (contains k ks ≡ false) × IsDistinct ks

contains-without :
    (k j : String) (ks : List String)
    → contains j (without k ks) ≡ (if str_eq k j then false else contains j ks)
unfolding without
contains-without k j [] = ground arith
contains-without k j (i ∷ ks) =
    ground (arith, eq_iff i k, eq_iff i j, eq_iff k j, contains-without k j ks)

without-IsDistinct : (k : String) (ks : List String) → IsDistinct ks → IsDistinct (without k ks)
unfolding without
without-IsDistinct k [] h = tt
without-IsDistinct k (j ∷ ks) h =
    ground (arith, contains-without k j ks, without-IsDistinct k ks h.1)

pub distinct-IsDistinct : (ks : List String) → IsDistinct (distinct ks)
unfolding distinct
distinct-IsDistinct [] = tt
distinct-IsDistinct (k ∷ ks) = ground (
  arith,
  eq_refl k,
  contains-without k k (distinct ks),
  without-IsDistinct k (distinct ks),
  distinct-IsDistinct ks,
)

lookup-record_each :
    (p : Policy) (now : ℕ) (ks : List String) (longest : ℕ) (t : Table Failure) (j : String)
    → IsDistinct ks
    → lookup j (record_each p now ks (longest, t)).1
      ≡ (if contains j ks then some (next_failure p now (lookup j t)) else lookup j t)
unfolding record_each
lookup-record_each p now [] longest t j h = refl
lookup-record_each p now (k ∷ ks) longest t j h =
    let row = next_failure p now (lookup k t) in
    ground (
      arith,
      eq_iff k j,
      lookup-upsert k j row t,
      lookup-record_each p now ks (max longest row.blocked_until) (upsert k row t) j h.1,
    )

-- One wrong password moves the row of each listed key by one step, and no other row.
pub lookup-auth_record_failure_many :
    (p : Policy) (now : ℕ) (keys : List String) (t : Table Failure) (j : String)
    → lookup j (auth_record_failure_many p now keys t).1
      ≡ (if contains j (distinct keys) then some (next_failure p now (lookup j t)) else lookup j t)
unfolding auth_record_failure_many
lookup-auth_record_failure_many p now keys t j =
    lookup-record_each p now (distinct keys) 0 t j (distinct-IsDistinct keys)

lookup-clear_each :
    (ks : List String) (t : Table Failure) (j : String)
    → lookup j (clear_each ks t) ≡ (if contains j ks then none else lookup j t)
unfolding clear_each
lookup-clear_each [] t j = refl
lookup-clear_each (k ∷ ks) t j =
    ground (arith, lookup-erase k j t, lookup-clear_each ks (erase k t) j)

-- A confirmed password forgets the rows of the listed keys, and no other row.
pub lookup-auth_clear_many :
    (keys : List String) (t : Table Failure) (j : String)
    → lookup j (auth_clear_many keys t) ≡ (if contains j (distinct keys) then none else lookup j t)
unfolding auth_clear_many
lookup-auth_clear_many keys t j = lookup-clear_each (distinct keys) t j

-- The longest single delay among the keys.
abbrev pub longest_delay : List String → ℕ → Table Failure → ℕ
longest_delay [] now t = 0
longest_delay (k ∷ ks) now t = max (auth_retry_after k now t) (longest_delay ks now t)

remaining-max : (a b now : ℕ) → remaining (max a b) now ≡ max (remaining a now) (remaining b now)
remaining-max a b now = ground arith

remaining-longest_block :
    (ks : List String) (now : ℕ) (t : Table Failure)
    → remaining (longest_block ks t) now ≡ longest_delay ks now t
unfolding longest_block auth_retry_after
remaining-longest_block [] now t = ground arith
remaining-longest_block (k ∷ ks) now t =
    rw (remaining-max (blocked_of (lookup k t)) (longest_block ks t) now)
      (ground (arith, remaining-longest_block ks now t))

pub auth_retry_after_many-eq-longest :
    (keys : List String) (now : ℕ) (t : Table Failure)
    → auth_retry_after_many keys now t ≡ longest_delay (distinct keys) now t
unfolding auth_retry_after_many
auth_retry_after_many-eq-longest keys now t = remaining-longest_block (distinct keys) now t
