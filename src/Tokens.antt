-- ===== src/Tokens.antt =====
-- The tables of app/db.py behind a login with a passkey: the registered credentials, the open
-- challenges, and the exchange and registration tokens that the native app redeems.
-- A call gives `none` where the code raises; the transaction is then rolled back. Texts that
-- `secrets.compare_digest` compares are hexadecimal digests, bytes are lists of numbers.
pub mod Credentials
pub mod Challenges
pub mod Exchanges
pub mod Registrations
pub mod Calls
pub mod Gone
pub mod SingleUse
pub mod Redemption
pub mod Revocation
pub mod Capacity
pub mod Counters
mod Examples
use rclone.Base.{
  ℕ, String, Bool, not, ◌&&◌, ◌||◌, Option, none, some, List, [], ◌∷◌, ◌++◌, str_eq, if◌then◌else◌,
  is_some, Table, is_empty, lookup,
}

-- A row of `webauthn_credentials`, without its key.
pub record Credential : Type 0 where
  pub method : String
  pub public_key : List ℕ
  pub sign_count : ℕ
  pub transports : List String
  pub device_type : String
  pub backed_up : Bool
  pub label : String
  pub created_at : ℕ
  pub last_used_at : Option ℕ
  pub generation : String

-- A row of `webauthn_challenges`, without its key.
pub record Challenge : Type 0 where
  pub challenge : List ℕ
  pub purpose : String
  pub method : String
  pub label : String
  pub native : Bool
  pub app_binding : String
  pub account_generation : String
  pub expires_at : ℕ
  pub created_at : ℕ

-- A row of `native_auth_exchanges`, without its key.
pub record Exchange : Type 0 where
  pub verifier_hash : String
  pub username : String
  pub account_generation : String
  pub credential_id : String
  pub credential_generation : String
  pub expires_at : ℕ
  pub created_at : ℕ

-- A row of `native_webauthn_registrations`, without its key.
pub record Registration : Type 0 where
  pub verifier_hash : String
  pub username : String
  pub method : String
  pub label : String
  pub account_generation : String
  pub expires_at : ℕ
  pub created_at : ℕ

pub record Accounts : Type 0 where
  pub credentials : Table Credential
  pub challenges : Table Challenge
  pub exchanges : Table Exchange
  pub registrations : Table Registration

-- `method in {"passkey", "security_key"}`
abbrev pub is_method : String → Bool
is_method method = str_eq method "passkey" || str_eq method "security_key"

-- `INSERT` into a table with a primary key: a row with this key is an IntegrityError.
unfoldable pub insert {ℓ} : {V : Type ℓ} → String → V → Table V → Option (Table V)
insert key v t = if is_some (lookup key t) then none else some (t ++ ((key, v) ∷ []))

-- `bool(stored) and compare_digest(stored, given)` for a generation that the caller must know.
abbrev pub is_generation : String → String → Bool
is_generation stored given = not (is_empty given) && str_eq stored given
