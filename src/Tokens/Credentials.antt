-- ===== src/Tokens/Credentials.antt =====
-- The registered passkeys and security keys (`webauthn_credential_*` of app/db.py).
use rclone.Tokens.{Credential, Accounts, is_method, insert}
use rclone.Base.{
  ℕ, String, Bool, true, false, not, ◌&&◌, ◌||◌, Option, none, some, List, [], ◌∷◌, str_eq, ltb,
  ◌==◌, if◌then◌else◌, is_some, Table, drop_where, is_empty, lookup, prefix, upsert, erase,
}

-- The arguments of `webauthn_credential_add`.
pub record Attested : Type 0 where
  pub method : String
  pub public_key : List ℕ
  pub sign_count : ℕ
  pub transports : List String
  pub device_type : String
  pub backed_up : Bool
  pub label : String

-- `list(dict.fromkeys(values))`
unfoldable pub unique_values : List String → List String
unique_values [] = []
unique_values (x ∷ xs) = x ∷ drop_where (λ y. str_eq y x) (unique_values xs)

-- `generation` is the random text of `secrets.token_hex(32)`.
unfoldable pub new_credential : Attested → String → ℕ → Credential
unfolding unique_values
new_credential a generation now = record {
  method = a.method;
  public_key = a.public_key;
  sign_count = a.sign_count;
  transports = unique_values a.transports;
  device_type = prefix 40 a.device_type;
  backed_up = a.backed_up;
  label = prefix 80 a.label;
  created_at = now;
  last_used_at = none;
  generation = generation;
}

unfoldable pub with_credentials : Accounts → Option (Table Credential) → Option Accounts
with_credentials s none = none
with_credentials s (some t) = some (record s { credentials = t })

unfoldable pub webauthn_credential_add : String → Attested → String → ℕ → Accounts → Option Accounts
unfolding new_credential insert with_credentials
webauthn_credential_add id a generation now s =
    if is_method a.method
    then with_credentials s (insert id (new_credential a generation now) s.credentials)
    else none

unfoldable pub webauthn_credential_get : String → Accounts → Option Credential
webauthn_credential_get id s = lookup id s.credentials

abbrev pub has_generation : String → Option Credential → Bool
has_generation generation none = false
has_generation generation (some c) = str_eq c.generation generation

unfoldable pub webauthn_credential_matches : String → String → Accounts → Bool
webauthn_credential_matches id generation s =
    not (is_empty id)
    && not (is_empty generation)
    && has_generation generation (lookup id s.credentials)

-- The arguments of `webauthn_credential_used`.
pub record Assertion : Type 0 where
  pub expected_generation : String
  pub expected_sign_count : ℕ
  pub sign_count : ℕ
  pub device_type : String
  pub backed_up : Bool

-- A counter that goes back, or a nonzero one that stands still, marks a cloned authenticator.
abbrev pub is_stale_count : Assertion → Bool
is_stale_count a =
    ltb a.sign_count a.expected_sign_count
    || ltb 0 a.expected_sign_count && a.sign_count == a.expected_sign_count

abbrev pub is_observed : Assertion → Credential → Bool
is_observed a c = str_eq c.generation a.expected_generation && c.sign_count == a.expected_sign_count

unfoldable pub use_credential : Assertion → ℕ → Credential → Credential
use_credential a now c = record c {
  sign_count = a.sign_count;
  device_type = prefix 40 a.device_type;
  backed_up = a.backed_up;
  last_used_at = some now;
}

unfoldable pub update_used : String → Assertion → ℕ → Accounts → Option Credential → Bool × Accounts
unfolding use_credential
update_used id a now s none = (false, s)
update_used id a now s (some c) =
    if is_observed a c
    then (true, record s { credentials = upsert id (use_credential a now c) s.credentials })
    else (false, s)

unfoldable pub webauthn_credential_used : String → Assertion → ℕ → Accounts → Bool × Accounts
unfolding update_used
webauthn_credential_used id a now s =
    if is_empty a.expected_generation || is_stale_count a
    then (false, s)
    else update_used id a now s (lookup id s.credentials)

unfoldable pub webauthn_credential_delete : String → Accounts → Bool × Accounts
webauthn_credential_delete id s =
    (is_some (lookup id s.credentials), record s { credentials = erase id s.credentials })
