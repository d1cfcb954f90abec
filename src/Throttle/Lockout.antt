-- ===== src/Throttle/Lockout.antt =====
-- The rate limit of app/auth.py as a whole: what wrong passwords, in any interleaving of the requests
-- that check them, lead to.
use rclone.Base.{
  ℕ, ◌+◌, ◌-◌, ◌*◌, ◌≤◌, ◌<◌, ◌≡◌, refl, ◌∙◌, String, Bool, true, ◌&&◌, Option, none, some, List,
  [], ◌∷◌, arith, ltb, if◌then◌else◌, eq_iff, Table, lookup, All, Bool-cases, false, inl, inr,
  is_some, count_where,
}
use rclone.Throttle.{
  Failure, Policy, blocked_of, auth_retry_after, distinct, next_failure, check_password,
  require_reauthentication, limited, second,
}
use rclone.Throttle.Keys.{
  contains, longest_delay, auth_retry_after_many-eq-longest, lookup-auth_record_failure_many,
  lookup-auth_clear_many,
}

longest_delay-le :
    (j : String) (ks : List String) (now : ℕ) (t : Table Failure)
    → contains j ks ≡ true
    → auth_retry_after j now t ≤ longest_delay ks now t
longest_delay-le j [] now t h = cc
longest_delay-le j (k ∷ ks) now t h = ground (arith, eq_iff k j, longest_delay-le j ks now t)

-- A block of one listed key limits the request, whatever the password, and changes no counter.
pub require_reauthentication_blocked :
    (p : Policy) (keys : List String) (asked answered : ℕ) (others : Table Failure → Table Failure)
    (generation : Option String) (t : Table Failure) (j : String) {r : Failure}
    → contains j (distinct keys) ≡ true
    → lookup j t ≡ some r
    → asked < r.blocked_until
    → require_reauthentication p keys asked answered others generation t
      ≡ (limited (longest_delay (distinct keys) asked t), t)
unfolding require_reauthentication auth_retry_after blocked_of
require_reauthentication_blocked p keys asked answered others generation t j listed found blocked =
    ground (
      arith,
      auth_retry_after_many-eq-longest keys asked t,
      longest_delay-le j (distinct keys) asked t listed,
    )

-- A password that has been checked: the keys of its request, the time, and what the check gave.
pub record Answer : Type 0 where
  pub keys : List String
  pub now : ℕ
  pub generation : Option String

abbrev pub lists : String → Answer → Bool
lists j a = contains j (distinct a.keys)

-- The recording of the answers, in the order of their transactions.
unfoldable pub record_answers : Policy → List Answer → Table Failure → Table Failure
unfolding check_password
record_answers p [] t = t
record_answers p (a ∷ answers) t =
    record_answers p answers (check_password p a.keys a.now a.generation t).1

-- How many failures the row still takes before it is blocked beyond `end`.
abbrev allowed : Policy → ℕ → Option Failure → ℕ
allowed p end none = p.max_failures
allowed p end (some r) = if ltb end r.blocked_until then 0 else p.max_failures - r.failure_count

-- The row's window began no earlier than `start`, and its count is below the limit.
abbrev IsRecent : Policy → ℕ → Option Failure → Type 0
IsRecent p start none = Unit {0}
IsRecent p start (some r) = (start ≤ r.window_started_at) × (r.failure_count < p.max_failures)

-- What the row is after some failures were recorded for it.
abbrev IsCounted : Policy → ℕ → ℕ → ℕ → Option Failure → Option Failure → Type 0
IsCounted p start end n row row' =
    IsRecent p start row' × (allowed p end row' ≤ allowed p end row - n)

lookup_wrong :
    (p : Policy) (keys : List String) (now : ℕ) (t : Table Failure) (j : String)
    → lookup j (check_password p keys now none t).1
      ≡ (if contains j (distinct keys) then some (next_failure p now (lookup j t)) else lookup j t)
unfolding check_password
lookup_wrong p keys now t j = lookup-auth_record_failure_many p now keys t j

-- A right password of a request with other keys leaves the row.
lookup_right :
    (p : Policy) (keys : List String) (now : ℕ) (g : String) (t : Table Failure) (j : String)
    → contains j (distinct keys) ≡ false
    → lookup j (check_password p keys now (some g) t).1 ≡ lookup j t
unfolding check_password
lookup_right p keys now g t j other = lookup-auth_clear_many keys t j ∙ ground (arith, other)

module _ (p : Policy) (start end : ℕ) (limit : 0 < p.max_failures)
    (fits : end ≤ start + p.window_sec * second) (locks : end < start + p.lock_sec * second) where
  next_failure-IsRecent :
      (now : ℕ) (row : Option Failure)
      → start ≤ now
      → IsRecent p start row
      → IsRecent p start (some (next_failure p now row))
  unfolding next_failure
  next_failure-IsRecent now none h v = ground arith
  next_failure-IsRecent now (some r) h v = ground arith

  next_failure-allowed :
      (now : ℕ) (row : Option Failure)
      → start ≤ now
      → now ≤ end
      → IsRecent p start row
      → allowed p end (some (next_failure p now row)) ≤ allowed p end row - 1
  unfolding next_failure
  next_failure-allowed now none h k v = ground arith
  next_failure-allowed now (some r) h k v = ground arith

  module _ (j : String) where
    answer-IsCounted :
        (keys : List String) (now : ℕ) (generation : Option String) (t : Table Failure)
        → start ≤ now
        → now ≤ end
        → is_some generation && contains j (distinct keys) ≡ false
        → IsRecent p start (lookup j t)
        → IsCounted p start end
            (if contains j (distinct keys) then 1 else 0)
            (lookup j t)
            (lookup j (check_password p keys now generation t).1)
    answer-IsCounted keys now (some g) t h k other recent =
        let kept = lookup_right p keys now g t j (ground (arith, other)) in
        rw kept (recent, ground (arith, other))
    answer-IsCounted keys now none t h k other recent =
        elim (Bool-cases (contains j (distinct keys))) [
          | inl listed ↦
              let moved : lookup j (check_password p keys now none t).1
                  ≡ some (next_failure p now (lookup j t)) =
                rw listed at (lookup_wrong p keys now t j) in
              rw (moved, listed)
                (
                  next_failure-IsRecent now (lookup j t) h recent,
                  next_failure-allowed now (lookup j t) h k recent,
                )
          | inr unlisted ↦
              let kept : lookup j (check_password p keys now none t).1 ≡ lookup j t =
                rw unlisted at (lookup_wrong p keys now t j) in
              rw (kept, unlisted) (recent, omega arith)
        ]

    record_answers-IsCounted :
        (answers : List Answer) (t : Table Failure)
        → All (λ a. (start ≤ a.now) × (a.now ≤ end)) answers
        → All (λ a. is_some a.generation && lists j a ≡ false) answers
        → IsRecent p start (lookup j t)
        → IsCounted p start end
            (count_where (lists j) answers)
            (lookup j t)
            (lookup j (record_answers p answers t))
    unfolding record_answers
    record_answers-IsCounted [] t within wrong recent = (recent, omega arith)
    record_answers-IsCounted (a ∷ answers) t within wrong recent =
        let one =
          answer-IsCounted a.keys a.now a.generation t within.0.0 within.0.1 wrong.0 recent in
        let rest =
          record_answers-IsCounted answers (check_password p a.keys a.now a.generation t).1 within.1
            wrong.1 one.0 in
        (rest.0, omega (arith, one.1, rest.1))

blocked_row :
    (p : Policy) (start end : ℕ) (row : Option Failure)
    → 0 < p.max_failures
    → IsRecent p start row
    → allowed p end row ≤ 0
    → (r : Failure) × (row ≡ some r) × (end < r.blocked_until)
blocked_row p start end none limit recent used = absurd (omega arith)
blocked_row p start end (some r) limit recent used = (r, refl, ground arith)

-- Once `max_failures` wrong passwords were recorded for a session or an address, whatever the other
-- keys of their requests and however the requests interleave, each request for it is limited before
-- its password is checked, for as long as the time since the first of them is within the window and
-- shorter than the lock, if it had no counter before and no right password was given for it.
pub require_reauthentication_locks :
    (p : Policy) (start end : ℕ) (j : String) (answers : List Answer) (keys : List String)
    (asked answered : ℕ) (others : Table Failure → Table Failure) (generation : Option String)
    (t : Table Failure)
    → 0 < p.max_failures
    → end ≤ start + p.window_sec * second
    → end < start + p.lock_sec * second
    → All (λ a. (start ≤ a.now) × (a.now ≤ end)) answers
    → All (λ a. is_some a.generation && lists j a ≡ false) answers
    → lookup j t ≡ none
    → p.max_failures ≤ count_where (lists j) answers
    → contains j (distinct keys) ≡ true
    → asked ≤ end
    → let t' = record_answers p answers t in
      require_reauthentication p keys asked answered others generation t'
      ≡ (limited (longest_delay (distinct keys) asked t'), t')
require_reauthentication_locks p start end j answers keys asked answered others generation t limit
      fits locks within wrong fresh enough listed early =
    let t' = record_answers p answers t in
    let n = count_where (lists j) answers in
    let counted : IsCounted p start end n none (lookup j t') = rw fresh at (
      record_answers-IsCounted p start end limit fits locks j answers t within wrong
        (rw fresh tt)) in
    let (r, found, blocked) =
      blocked_row p start end (lookup j t') limit counted.0 (omega (arith, counted.1)) in
    require_reauthentication_blocked p keys asked answered others generation t' j listed found
      (omega arith)
