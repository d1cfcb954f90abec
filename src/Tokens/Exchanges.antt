-- ===== src/Tokens/Exchanges.antt =====
-- The tokens with which the native app takes over a login (`native_auth_exchange_*` of app/db.py).
use rclone.Throttle.{second}
use rclone.Tokens.{Exchange, Credential, Accounts, is_generation, insert}
use rclone.Tokens.Credentials.{has_generation}
use rclone.Base.{
  ℕ, ◌+◌, ◌*◌, String, Bool, true, false, not, ◌&&◌, ◌||◌, Option, none, some, str_eq, ltb, leb,
  if◌then◌else◌, clamp, is_some, Table, erase, is_empty, lookup, drop, drop_where, sort_by,
}

-- The arguments of `native_auth_exchange_create`, without the token's hash.
pub record Grant : Type 0 where
  pub verifier_hash : String
  pub username : String
  pub account_generation : String
  pub credential_id : String
  pub credential_generation : String
  pub ttl_seconds : ℕ

unfoldable pub new_exchange : Grant → ℕ → Exchange
new_exchange g now = record {
  verifier_hash = g.verifier_hash;
  username = g.username;
  account_generation = g.account_generation;
  credential_id = g.credential_id;
  credential_generation = g.credential_generation;
  expires_at = now + clamp 15 120 g.ttl_seconds * second;
  created_at = now;
}

-- The rows behind the newest n, by `ORDER BY created_at DESC LIMIT -1 OFFSET n`.
unfoldable pub overflow_exchanges : ℕ → Table Exchange → Table Exchange
overflow_exchanges n t = drop n (sort_by (λ a b. ltb b.1.created_at a.1.created_at) t)

-- The rows that stay once the expired ones and the oldest above 1023 are deleted.
unfoldable pub purge_exchanges : ℕ → Table Exchange → Table Exchange
unfolding overflow_exchanges
purge_exchanges now t =
    let live = drop_where (λ row. ltb row.1.expires_at now) t in
    drop_where (λ row. is_some (lookup row.0 (overflow_exchanges 1023 live))) live

abbrev pub is_complete : Grant → Bool
is_complete g =
    not (is_empty g.account_generation)
    && not (is_empty g.credential_id)
    && not (is_empty g.credential_generation)

unfoldable pub with_exchanges : Accounts → Option (Table Exchange) → Option (Bool × Accounts)
with_exchanges s none = none
with_exchanges s (some t) = some (true, record s { exchanges = t })

-- The insertion selects from `webauthn_credentials`: no row without the credential.
unfoldable pub native_auth_exchange_create :
    String → Grant → ℕ → Accounts → Option (Bool × Accounts)
unfolding new_exchange purge_exchanges insert with_exchanges
native_auth_exchange_create token_hash g now s =
    let kept = purge_exchanges now s.exchanges in
    if not (is_complete g)
    then some (false, s)
    else if has_generation g.credential_generation (lookup g.credential_id s.credentials)
    then with_exchanges s (insert token_hash (new_exchange g now) kept)
    else some (false, record s { exchanges = kept })

unfoldable pub pending_row : String → ℕ → Option Exchange → Bool
pending_row verifier_hash now none = false
pending_row verifier_hash now (some x) =
    leb now x.expires_at && str_eq x.verifier_hash verifier_hash

unfoldable pub native_auth_exchange_pending : String → String → ℕ → Accounts → Bool
unfolding pending_row
native_auth_exchange_pending token_hash verifier_hash now s =
    pending_row verifier_hash now (lookup token_hash s.exchanges)

-- `credential_valid`: the credential of the token is still registered as it was.
unfoldable pub is_backed : Table Credential → Exchange → Bool
is_backed credentials x =
    not (is_empty x.credential_generation)
    && has_generation x.credential_generation (lookup x.credential_id credentials)

abbrev pub is_redeemable : String → String → ℕ → Exchange → Bool
is_redeemable verifier_hash account_generation now x =
    leb now x.expires_at
    && str_eq x.verifier_hash verifier_hash
    && is_generation x.account_generation account_generation

unfoldable pub redeem :
    String → String → String → ℕ → Accounts → Option Exchange → Option String × Accounts
unfolding is_backed
redeem token_hash verifier_hash account_generation now s none = (none, s)
redeem token_hash verifier_hash account_generation now s (some x) =
    let backed = is_backed s.credentials x in
    let valid = backed && is_redeemable verifier_hash account_generation now x in
    (
      if valid then some x.username else none,
      if valid || ltb x.expires_at now || not backed
          then record s { exchanges = erase token_hash s.exchanges }
          else s,
    )

unfoldable pub native_auth_exchange_consume :
    String → String → String → ℕ → Accounts → Option String × Accounts
unfolding redeem
native_auth_exchange_consume token_hash verifier_hash account_generation now s =
    redeem token_hash verifier_hash account_generation now s (lookup token_hash s.exchanges)
