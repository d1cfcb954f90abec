-- ===== src/Tokens/Challenges.antt =====
-- The open WebAuthn ceremonies (`webauthn_challenge_*` of app/db.py).
use rclone.Throttle.{second}
use rclone.Tokens.{Challenge, Accounts, is_method, is_generation, insert}
use rclone.Base.{
  ℕ, ◌+◌, ◌*◌, String, Bool, ◌&&◌, ◌||◌, Option, none, some, List, str_eq, ltb, leb, if◌then◌else◌,
  clamp, Table, lookup, prefix, count_where, drop_where, erase,
}

-- The arguments of `webauthn_challenge_create`.
pub record Ceremony : Type 0 where
  pub challenge : List ℕ
  pub purpose : String
  pub method : String
  pub label : String
  pub native : Bool
  pub app_binding : String
  pub account_generation : String
  pub ttl_seconds : ℕ

unfoldable pub new_challenge : Ceremony → ℕ → Challenge
new_challenge c now = record {
  challenge = c.challenge;
  purpose = c.purpose;
  method = c.method;
  label = prefix 80 c.label;
  native = c.native;
  app_binding = prefix 128 c.app_binding;
  account_generation = c.account_generation;
  expires_at = now + clamp 30 600 c.ttl_seconds * second;
  created_at = now;
}

-- The two `CHECK` constraints of the table.
abbrev pub is_ceremony : Ceremony → Bool
is_ceremony c =
    (str_eq c.purpose "register" || str_eq c.purpose "authenticate") && is_method c.method

unfoldable pub purge_challenges : ℕ → Table Challenge → Table Challenge
purge_challenges now t = drop_where (λ row. ltb row.1.expires_at now) t

unfoldable pub count_open : String → Table Challenge → ℕ
count_open purpose t = count_where (λ row. str_eq row.1.purpose purpose) t

unfoldable pub with_challenges : Accounts → Option (Table Challenge) → Option Accounts
with_challenges s none = none
with_challenges s (some t) = some (record s { challenges = t })

unfoldable pub webauthn_challenge_create : String → Ceremony → ℕ → Accounts → Option Accounts
unfolding new_challenge purge_challenges count_open insert with_challenges
webauthn_challenge_create id c now s =
    let live = purge_challenges now s.challenges in
    if leb 512 (count_open c.purpose live)
    then none
    else if is_ceremony c
    then with_challenges s (insert id (new_challenge c now) live)
    else none

abbrev pub is_answerable : String → String → ℕ → Challenge → Bool
is_answerable purpose account_generation now c =
    str_eq c.purpose purpose
    && leb now c.expires_at
    && is_generation c.account_generation account_generation

unfoldable pub answer : String → String → ℕ → Option Challenge → Option Challenge
answer purpose account_generation now none = none
answer purpose account_generation now (some c) =
    if is_answerable purpose account_generation now c then some c else none

-- The row is deleted whatever the reply.
unfoldable pub webauthn_challenge_consume :
    String → String → String → ℕ → Accounts → Option Challenge × Accounts
unfolding answer
webauthn_challenge_consume id purpose account_generation now s = (
  answer purpose account_generation now (lookup id s.challenges),
  record s { challenges = erase id s.challenges },
)
