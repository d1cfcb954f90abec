-- ===== src/Throttle/Memory.antt =====
-- app/auth.py: the login and reauthentication counters as the routes call them, with the in-memory
-- fallback that takes over while the database is not available.
use rclone.Base.{
  ℕ, ◌+◌, ◌-◌, ◌*◌, ◌/◌, ◌≤◌, ◌<◌, max, String, ◌≡◌, ◌≢◌, Bool, true, false, none, some, List, [],
  ◌∷◌, ◌++◌, arith, eq_iff, eq_refl, ltb, leb, if◌then◌else◌, length, length-append, lookup-upsert,
  lookup-erase,
}
use rclone.Throttle.{
  Failure, Policy, second, auth_retry_after, auth_retry_after_many, auth_record_failure,
  auth_record_failure_many, auth_clear, auth_clear_many, Bool, List, String, Table, ℕ, erase,
  lookup, ◌∷◌, max, upsert,
}

-- `_login_failures` and `_login_blocked_until`; times are those of the monotonic clock.
pub record Memory : Type 0 where
  pub failures : Table (List ℕ)
  pub blocked_until : Table ℕ

pub record Counters : Type 0 where
  pub rows : Table Failure
  pub memory : Memory

-- Whether the database answers, the wall clock and the monotonic clock.
pub record Moment : Type 0 where
  pub available : Bool
  pub now : ℕ
  pub monotonic : ℕ

-- `while failures and now - failures[0] > window_sec: failures.popleft()`
unfoldable pub trim : ℕ → ℕ → List ℕ → List ℕ
trim window_sec now [] = []
trim window_sec now (f ∷ fs) =
    let rest = trim window_sec now fs in
    if ltb (window_sec * second) (now - f) then rest else f ∷ fs

unfoldable pub get_failures : String → Table (List ℕ) → List ℕ
get_failures key t = elim (lookup key t) [ none ↦ [] | some fs ↦ fs ]

unfoldable pub get_blocked : String → Table ℕ → ℕ
get_blocked key t = elim (lookup key t) [ none ↦ 0 | some b ↦ b ]

-- Stores a trimmed queue, or forgets an empty one.
unfoldable pub store_trimmed : String → List ℕ → Table (List ℕ) → Table (List ℕ)
store_trimmed key [] t = erase key t
store_trimmed key (f ∷ fs) t = upsert key (f ∷ fs) t

unfoldable pub expire : ℕ → ℕ → String → Table (List ℕ) → Table (List ℕ)
unfolding get_failures trim store_trimmed
expire window_sec now key t = elim (get_failures key t) [
  | [] ↦ t
  | f ∷ fs ↦ store_trimmed key (trim window_sec now (f ∷ fs)) t
]

unfoldable pub fallback_retry_after : String → ℕ → ℕ → Memory → ℕ × Memory
unfolding get_blocked expire
fallback_retry_after key window_sec now m =
    let blocked = get_blocked key m.blocked_until in
    if ltb now blocked then (max 1 ((blocked - now) / second), m) else (
      0,
      record {
        failures = expire window_sec now key m.failures;
        blocked_until = erase key m.blocked_until;
      },
    )

-- The fallback of `record_login_failure`, and one round of that of `record_reauth_failure`.
unfoldable pub fallback_record : Policy → ℕ → String → Memory → ℕ × Memory
unfolding get_failures trim
fallback_record p now key m =
    let failures = trim p.window_sec now (get_failures key m.failures) ++ (now ∷ []) in
    if leb p.max_failures (length failures)
    then (
      p.lock_sec,
      record {
        failures = upsert key [] m.failures;
        blocked_until = upsert key (now + p.lock_sec * second) m.blocked_until;
      },
    )
    else (0, record m { failures = upsert key failures m.failures })

unfoldable pub fallback_retry_after_many : List String → ℕ → ℕ → Memory → ℕ × Memory
unfolding fallback_retry_after
fallback_retry_after_many [] window_sec now m = (0, m)
fallback_retry_after_many (k ∷ ks) window_sec now m =
    let (retry, m') = fallback_retry_after k window_sec now m in
    let (others, m'') = fallback_retry_after_many ks window_sec now m' in (max retry others, m'')

unfoldable pub fallback_record_many : Policy → ℕ → List String → Memory → ℕ × Memory
unfolding fallback_record
fallback_record_many p now [] m = (0, m)
fallback_record_many p now (k ∷ ks) m =
    let (lock, m') = fallback_record p now k m in
    let (others, m'') = fallback_record_many p now ks m' in (max lock others, m'')

unfoldable pub forget : String → Memory → Memory
forget key m = record { failures = erase key m.failures; blocked_until = erase key m.blocked_until }

unfoldable pub forget_many : List String → Memory → Memory
unfolding forget
forget_many [] m = m
forget_many (k ∷ ks) m = forget_many ks (forget k m)

unfoldable pub login_retry_after : Policy → Moment → String → Counters → ℕ × Counters
login_retry_after p at_time key c =
    if at_time.available
    then (auth_retry_after key at_time.now c.rows, c)
    else (let (retry, m) = fallback_retry_after key p.window_sec at_time.monotonic c.memory in
        (retry, record c { memory = m }))

unfoldable pub record_login_failure : Policy → Moment → String → Counters → ℕ × Counters
record_login_failure p at_time key c =
    if at_time.available
    then (let (retry, t) = auth_record_failure p at_time.now key c.rows in
        (retry, record c { rows = t }))
    else (let (retry, m) = fallback_record p at_time.monotonic key c.memory in
        (retry, record c { memory = m }))

unfoldable pub clear_login_failures : Moment → String → Counters → Counters
unfolding forget
clear_login_failures at_time key c = record {
  rows = if at_time.available then auth_clear key c.rows else c.rows;
  memory = forget key c.memory;
}

unfoldable pub reauth_retry_after : Policy → Moment → List String → Counters → ℕ × Counters
unfolding fallback_retry_after_many
reauth_retry_after p at_time keys c =
    if at_time.available
    then (auth_retry_after_many keys at_time.now c.rows, c)
    else (let (retry, m) = fallback_retry_after_many keys p.window_sec at_time.monotonic c.memory in
        (retry, record c { memory = m }))

unfoldable pub record_reauth_failure : Policy → Moment → List String → Counters → ℕ × Counters
unfolding fallback_record_many
record_reauth_failure p at_time keys c =
    if at_time.available
    then (let (retry, t) = auth_record_failure_many p at_time.now keys c.rows in
        (retry, record c { rows = t }))
    else (let (retry, m) = fallback_record_many p at_time.monotonic keys c.memory in
        (retry, record c { memory = m }))

unfoldable pub clear_reauth_failures : Moment → List String → Counters → Counters
unfolding forget_many
clear_reauth_failures at_time keys c = record {
  rows = if at_time.available then auth_clear_many keys c.rows else c.rows;
  memory = forget_many keys c.memory;
}

-- While the database is away, the failure that fills the window locks the key for `lock_sec`
-- seconds: every later request in that time is told what is left of it, and changes nothing.
pub record_login_failure_locks :
    (p : Policy) (at_time later : Moment) (key : String) (c : Counters)
    → at_time.available ≡ false
    → later.available ≡ false
    → p.max_failures
      ≤ length (trim p.window_sec at_time.monotonic (get_failures key c.memory.failures)) + 1
    → later.monotonic < at_time.monotonic + p.lock_sec * second
    → let (lock, c') = record_login_failure p at_time key c in
      (lock ≡ p.lock_sec)
      × (login_retry_after p later key c'
          ≡ (max 1 ((at_time.monotonic + p.lock_sec * second - later.monotonic) / second), c'))
unfolding record_login_failure login_retry_after fallback_record fallback_retry_after get_blocked
record_login_failure_locks p at_time later key c away away' full soon = ground (
  arith,
  eq_refl key,
  length-append (trim p.window_sec at_time.monotonic (get_failures key c.memory.failures))
      (at_time.monotonic ∷ []),
  lookup-upsert key key (at_time.monotonic + p.lock_sec * second) c.memory.blocked_until,
)

-- A successful login resets the key: neither store delays it any more, and another key keeps its
-- delay in both.
pub clear_login_failures_resets :
    (p : Policy) (cleared at_time : Moment) (key other : String) (c : Counters)
    → cleared.available ≡ true
    → other ≢ key
    → let c' = clear_login_failures cleared key c in
      ((login_retry_after p at_time key c').0 ≡ 0)
      × ((login_retry_after p at_time other c').0 ≡ (login_retry_after p at_time other c).0)
unfolding clear_login_failures login_retry_after auth_clear auth_retry_after fallback_retry_after
    get_blocked
clear_login_failures_resets p cleared at_time key other c there differ = ground (
  arith,
  eq_refl key,
  eq_iff key other,
  lookup-erase key key c.rows,
  lookup-erase key other c.rows,
  lookup-erase key key c.memory.blocked_until,
  lookup-erase key other c.memory.blocked_until,
)
