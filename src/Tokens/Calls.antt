-- ===== src/Tokens/Calls.antt =====
-- Sequences of calls on the tables of app/db.py behind a login with a passkey.
use rclone.Tokens.{Accounts}
use rclone.Tokens.Credentials.{
  Attested, Assertion, webauthn_credential_add, webauthn_credential_used,
  webauthn_credential_delete,
}
use rclone.Tokens.Challenges.{Ceremony, webauthn_challenge_create, webauthn_challenge_consume}
use rclone.Tokens.Exchanges.{Grant, native_auth_exchange_create, native_auth_exchange_consume}
use rclone.Tokens.Registrations.{
  Invitation, native_webauthn_registration_create, native_webauthn_registration_consume,
}
use rclone.Base.{
  ℕ, String, ◌≡◌, Bool, false, Option, none, some, List, [], ◌∷◌, arith, str_eq, any_where,
}

-- The calls that change a table, with their arguments and their time.
pub data Call : Type 0 where
  add_credential : String → Attested → String → ℕ → Call
  use_key : String → Assertion → ℕ → Call
  delete_credential : String → Call
  create_challenge : String → Ceremony → ℕ → Call
  consume_challenge : String → String → String → ℕ → Call
  create_exchange : String → Grant → ℕ → Call
  consume_exchange : String → String → String → ℕ → Call
  create_registration : String → Invitation → ℕ → Call
  consume_registration : String → String → String → ℕ → Call

-- A call that raises changes nothing.
abbrev pub or_same : Accounts → Option Accounts → Accounts
or_same s none = s
or_same s (some s') = s'

abbrev pub or_same_of : Accounts → Option (Bool × Accounts) → Accounts
or_same_of s none = s
or_same_of s (some (b, s')) = s'

abbrev pub step : Call → Accounts → Accounts
step (add_credential id a generation now) s =
    or_same s (webauthn_credential_add id a generation now s)
step (use_key id a now) s = (webauthn_credential_used id a now s).1
step (delete_credential id) s = (webauthn_credential_delete id s).1
step (create_challenge id c now) s = or_same s (webauthn_challenge_create id c now s)
step (consume_challenge id purpose generation now) s =
    (webauthn_challenge_consume id purpose generation now s).1
step (create_exchange hash g now) s = or_same_of s (native_auth_exchange_create hash g now s)
step (consume_exchange hash verifier generation now) s =
    (native_auth_exchange_consume hash verifier generation now s).1
step (create_registration hash i now) s =
    or_same s (native_webauthn_registration_create hash i now s)
step (consume_registration hash verifier generation now) s =
    (native_webauthn_registration_consume hash verifier generation now s).1

abbrev pub run : List Call → Accounts → Accounts
run [] s = s
run (c ∷ cs) s = run cs (step c s)

abbrev pub creates_challenge : String → Call → Bool
creates_challenge id (create_challenge i c now) = str_eq i id
creates_challenge id _ = false

abbrev pub creates_exchange : String → Call → Bool
creates_exchange hash (create_exchange h g now) = str_eq h hash
creates_exchange hash _ = false

abbrev pub creates_registration : String → Call → Bool
creates_registration hash (create_registration h i now) = str_eq h hash
creates_registration hash _ = false

-- A property of the tables that every call of a kind keeps holds after a sequence of such calls.
pub run-keeps :
    (P : Accounts → Type 0) (banned : Call → Bool)
    → ((c : Call) (s : Accounts) → banned c ≡ false → P s → P (step c s))
    → (cs : List Call) (s : Accounts) → any_where banned cs ≡ false
    → P s
    → P (run cs s)
run-keeps P banned keeps [] s ok h = h
run-keeps P banned keeps (c ∷ cs) s ok h =
    run-keeps P banned keeps cs (step c s) (ground arith) (keeps c s (ground arith) h)
