-- ===== src/Throttle/Examples.antt =====
-- The throttling of app/db.py and app/auth.py at concrete requests.
use rclone.Base.{
  ℕ, ◌*◌, String, ◌≡◌, refl, true, false, none, some, List, [], ◌∷◌, arith, Table, lookup, upsert,
  erase,
}
use rclone.Throttle.{
  Failure, Policy, distinct, auth_record_failure_many, auth_retry_after_many,
  require_reauthentication, limited, second, auth_clear_many,
}
use rclone.Throttle.Keys.{longest_delay}
use rclone.Throttle.Lockout.{
  Answer, record_answers, require_reauthentication_locks, require_reauthentication_blocked,
}
use rclone.Throttle.Memory.{Counters, Moment}

abbrev policy : Policy
policy = record { window_sec = 300; max_failures = 3; lock_sec = 900 }

abbrev keys : List String
keys = "reauth:session:a" ∷ "" ∷ "reauth:ip:b" ∷ "reauth:session:a" ∷ []

keys-distinct : distinct keys ≡ "reauth:session:a" ∷ "reauth:ip:b" ∷ []
unfolding distinct
keys-distinct = refl

-- The third wrong password locks the address.
abbrev two_failures : Table Failure
two_failures =
    (
      "reauth:ip:b",
      record {
        window_started_at = 0;
        failure_count = 2;
        blocked_until = 0;
        updated_at = 50 * second;
      },
    )
    ∷ []

third_failure_locks :
    (require_reauthentication policy keys
      (100 * second)
      (101 * second)
      (λ t. t)
      none
      two_failures).0
    ≡ limited 900
unfolding require_reauthentication auth_retry_after_many auth_record_failure_many lookup upsert
third_failure_locks = refl

right_password_clears :
    (require_reauthentication policy keys
      (100 * second)
      (101 * second)
      (λ t. t)
      (some "g1")
      two_failures).1
    ≡ []
unfolding require_reauthentication auth_retry_after_many auth_clear_many lookup erase
right_password_clears = refl

abbrev locked : Table Failure
locked =
    (
      "reauth:ip:b",
      record {
        window_started_at = 0;
        failure_count = 0;
        blocked_until = 900 * second;
        updated_at = 0;
      },
    )
    ∷ []

require_reauthentication_blocked_example :
    require_reauthentication policy keys (100 * second) (101 * second) (λ t. t) (some "g1") locked
    ≡ (limited (longest_delay (distinct keys) (100 * second) locked), locked)
unfolding distinct lookup
require_reauthentication_blocked_example =
    require_reauthentication_blocked policy keys (100 * second) (101 * second) (λ t. t) (some "g1")
      locked "reauth:ip:b" refl refl (omega arith)

abbrev wrong_at : ℕ → String → Answer
wrong_at now session = record { keys = session ∷ "reauth:ip:b" ∷ []; now = now; generation = none }

-- Four wrong passwords from one address, each with another session, and a right one from elsewhere.
abbrev answers : List Answer
answers =
    wrong_at second "reauth:session:a"
    ∷ wrong_at second "reauth:session:b"
    ∷ record { keys = "reauth:ip:c" ∷ []; now = 2 * second; generation = some "g1" }
    ∷ wrong_at (3 * second) "reauth:session:c"
    ∷ wrong_at (4 * second) "reauth:session:d"
    ∷ []

require_reauthentication_locks_example :
    let t = record_answers policy answers [] in
    require_reauthentication policy keys (250 * second) (251 * second) (λ t. t) (some "g1") t
    ≡ (limited (longest_delay (distinct keys) (250 * second) t), t)
unfolding distinct lookup
require_reauthentication_locks_example =
    require_reauthentication_locks policy 0 (250 * second) "reauth:ip:b" answers keys (250 * second)
      (251 * second) (λ t. t) (some "g1") [] (omega arith) (omega arith) (omega arith)
      (
        (omega arith, omega arith),
        (
          (omega arith, omega arith),
          (
            (omega arith, omega arith),
            ((omega arith, omega arith), ((omega arith, omega arith), tt)),
          ),
        ),
      )
      (refl, (refl, (refl, (refl, (refl, tt))))) refl (omega arith) refl (omega arith)

abbrev away : ℕ → Moment
away t = record { available = false; now = 0; monotonic = t }

abbrev nearly : Counters
nearly = record {
  rows = [];
  memory = record {
    failures = ("10.0.0.1", 0 ∷ 400 * second ∷ 410 * second ∷ []) ∷ [];
    blocked_until = [];
  };
}

abbrev back : Moment
back = record { available = true; now = 500 * second; monotonic = 430 * second }
