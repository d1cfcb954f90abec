-- ===== src/Tokens/Registrations.antt =====
-- The tokens with which the native app registers a passkey (`native_webauthn_registration_*` of
-- app/db.py).
use rclone.Throttle.{second}
use rclone.Tokens.{Registration, Accounts, is_method, is_generation, insert}
use rclone.Base.{
  ℕ, ◌+◌, ◌*◌, String, Bool, ◌&&◌, ◌||◌, Option, none, some, str_eq, ltb, leb, if◌then◌else◌, clamp,
  is_some, Table, erase, lookup, prefix, drop, drop_where, sort_by,
}

-- The arguments of `native_webauthn_registration_create`, without the token's hash.
pub record Invitation : Type 0 where
  pub verifier_hash : String
  pub username : String
  pub method : String
  pub label : String
  pub account_generation : String
  pub ttl_seconds : ℕ

unfoldable pub new_registration : Invitation → ℕ → Registration
new_registration i now = record {
  verifier_hash = i.verifier_hash;
  username = prefix 128 i.username;
  method = i.method;
  label = prefix 80 i.label;
  account_generation = i.account_generation;
  expires_at = now + clamp 30 600 i.ttl_seconds * second;
  created_at = now;
}

unfoldable pub overflow_registrations : ℕ → Table Registration → Table Registration
overflow_registrations n t = drop n (sort_by (λ a b. ltb b.1.created_at a.1.created_at) t)

-- The rows that stay once the expired ones and the oldest above 255 are deleted.
unfoldable pub purge_registrations : ℕ → Table Registration → Table Registration
unfolding overflow_registrations
purge_registrations now t =
    let live = drop_where (λ row. ltb row.1.expires_at now) t in
    drop_where (λ row. is_some (lookup row.0 (overflow_registrations 255 live))) live

unfoldable pub with_registrations : Accounts → Option (Table Registration) → Option Accounts
with_registrations s none = none
with_registrations s (some t) = some (record s { registrations = t })

unfoldable pub native_webauthn_registration_create :
    String → Invitation → ℕ → Accounts → Option Accounts
unfolding new_registration purge_registrations insert with_registrations
native_webauthn_registration_create token_hash i now s =
    if is_method i.method
    then with_registrations s
        (insert token_hash (new_registration i now) (purge_registrations now s.registrations))
    else none

abbrev pub is_usable : String → String → ℕ → Registration → Bool
is_usable verifier_hash account_generation now r =
    leb now r.expires_at
    && str_eq r.verifier_hash verifier_hash
    && is_generation r.account_generation account_generation

unfoldable pub take_up :
    String → String → String → ℕ → Accounts → Option Registration → Option Registration × Accounts
take_up token_hash verifier_hash account_generation now s none = (none, s)
take_up token_hash verifier_hash account_generation now s (some r) =
    let valid = is_usable verifier_hash account_generation now r in
    (
      if valid then some r else none,
      if valid || ltb r.expires_at now
          then record s { registrations = erase token_hash s.registrations }
          else s,
    )

-- Of the row that the reply stands for, the code passes on all but the verifier and the times.
unfoldable pub native_webauthn_registration_consume :
    String → String → String → ℕ → Accounts → Option Registration × Accounts
unfolding take_up
native_webauthn_registration_consume token_hash verifier_hash account_generation now s =
    take_up token_hash verifier_hash account_generation now s (lookup token_hash s.registrations)
