-- ===== src/Tokens/Examples.antt =====
-- The tables of app/db.py behind a login with a passkey, at concrete calls.
use rclone.Throttle.{second}
use rclone.Tokens.{Accounts, Credential, Exchange, insert}
use rclone.Tokens.Credentials.{
  Attested, Assertion, webauthn_credential_used, webauthn_credential_delete, update_used,
}
use rclone.Tokens.Challenges.{
  Ceremony, webauthn_challenge_create, webauthn_challenge_consume, purge_challenges, new_challenge,
  with_challenges, count_open, answer,
}
use rclone.Tokens.Exchanges.{
  Grant, native_auth_exchange_create, native_auth_exchange_consume, purge_exchanges, new_exchange,
  redeem, with_exchanges, overflow_exchanges, is_backed,
}
use rclone.Tokens.Registrations.{
  Invitation, native_webauthn_registration_consume, take_up, new_registration,
}
use rclone.Tokens.Calls.{
  Call, add_credential, create_challenge, create_exchange, consume_exchange, run,
}
use rclone.Tokens.SingleUse.{
  webauthn_challenge_consume_once, native_auth_exchange_consume_once,
  native_webauthn_registration_consume_once,
}
use rclone.Tokens.Redemption.{
  IsGranted, native_auth_exchange_consume_accepts, webauthn_challenge_roundtrip,
}
use rclone.Tokens.Revocation.{webauthn_credential_delete_revokes}
use rclone.Tokens.Capacity.{run-IsWithinCapacity}
use rclone.Tokens.Counters.{webauthn_credential_used_rises}
use rclone.Base.{
  ◌*◌, ◌≤◌, String, ◌≡◌, refl, ◌↔◌, true, false, none, some, List, [], ◌∷◌, arith, lookup,
}

abbrev key_a : Credential
key_a = record {
  method = "passkey";
  public_key = 1 ∷ 2 ∷ [];
  sign_count = 4;
  transports = [];
  device_type = "";
  backed_up = false;
  label = "";
  created_at = 0;
  last_used_at = none;
  generation = "g1";
}

abbrev ceremony : Ceremony
ceremony = record {
  challenge = 7 ∷ [];
  purpose = "authenticate";
  method = "passkey";
  label = "";
  native = true;
  app_binding = "";
  account_generation = "acc";
  ttl_seconds = 300;
}

abbrev grant : Grant
grant = record {
  verifier_hash = "v";
  username = "admin";
  account_generation = "acc";
  credential_id = "a";
  credential_generation = "g1";
  ttl_seconds = 60;
}

abbrev invitation : Invitation
invitation = record {
  verifier_hash = "v";
  username = "admin";
  method = "passkey";
  label = "";
  account_generation = "acc";
  ttl_seconds = 300;
}

abbrev accounts : Accounts
accounts = record {
  credentials = ("a", key_a) ∷ [];
  challenges = ("c", new_challenge ceremony 0) ∷ [];
  exchanges = ("x", new_exchange grant 0) ∷ [];
  registrations = ("r", new_registration invitation 0) ∷ [];
}

abbrev attested : Attested
attested = record {
  method = "passkey";
  public_key = 1 ∷ 2 ∷ [];
  sign_count = 0;
  transports = [];
  device_type = "";
  backed_up = false;
  label = "";
}

abbrev assertion : Assertion
assertion = record {
  expected_generation = "g1";
  expected_sign_count = 4;
  sign_count = 5;
  device_type = "";
  backed_up = false;
}

abbrev other_calls : List Call
other_calls =
    create_challenge "d" ceremony (5 * second)
    ∷ create_exchange "y" grant (5 * second)
    ∷ consume_exchange "y" "v" "acc" (6 * second)
    ∷ []

webauthn_challenge_consume_once_example :
    (webauthn_challenge_consume "c" "authenticate" "acc"
      (9 * second)
      (run other_calls (webauthn_challenge_consume "c" "authenticate" "acc" second accounts).1)).0
    ≡ none
webauthn_challenge_consume_once_example =
    webauthn_challenge_consume_once "c" "authenticate" "authenticate" "acc" "acc" second
      (9 * second) other_calls accounts refl

first_challenge_accepted :
    (webauthn_challenge_consume "c" "authenticate" "acc" second accounts).0
    ≡ some (new_challenge ceremony 0)
unfolding webauthn_challenge_consume answer new_challenge lookup
first_challenge_accepted = refl

native_auth_exchange_consume_once_example :
    (native_auth_exchange_consume "x" "v" "acc"
      (9 * second)
      (run other_calls (native_auth_exchange_consume "x" "v" "acc" second accounts).1)).0
    ≡ none
unfolding native_auth_exchange_consume redeem is_backed new_exchange lookup
native_auth_exchange_consume_once_example =
    native_auth_exchange_consume_once "x" "v" "v" "acc" "acc" "admin" second (9 * second)
      other_calls accounts refl refl

native_webauthn_registration_consume_once_example :
    (native_webauthn_registration_consume "r" "v" "acc"
      (9 * second)
      (run other_calls (native_webauthn_registration_consume "r" "v" "acc" second accounts).1)).0
    ≡ none
unfolding native_webauthn_registration_consume take_up new_registration lookup
native_webauthn_registration_consume_once_example =
    native_webauthn_registration_consume_once "r" "v" "v" "acc" "acc"
      (new_registration invitation 0) second (9 * second) other_calls accounts refl refl

native_auth_exchange_consume_accepts_example :
    ((native_auth_exchange_consume "x" "v" "acc" second accounts).0 ≡ some "admin") ↔ (
      (x : Exchange) × (lookup "x" accounts.exchanges ≡ some x)
      × IsGranted accounts "v" "acc" "admin" second x)
native_auth_exchange_consume_accepts_example =
    native_auth_exchange_consume_accepts "x" "v" "acc" "admin" second accounts

abbrev with_d : Accounts
with_d = record accounts {
  challenges = ("c", new_challenge ceremony 0) ∷ ("d", new_challenge ceremony second) ∷ [];
}

webauthn_challenge_roundtrip_example :
    (webauthn_challenge_consume "d" "authenticate" "acc" (200 * second) with_d).0
    ≡ some (new_challenge ceremony second)
unfolding webauthn_challenge_create with_challenges purge_challenges count_open insert new_challenge
    lookup
webauthn_challenge_roundtrip_example =
    webauthn_challenge_roundtrip "d" ceremony second (200 * second) accounts with_d refl
      (omega arith) refl

abbrev with_y : Accounts
with_y = record accounts {
  exchanges = ("x", new_exchange grant 0) ∷ ("y", new_exchange grant second) ∷ [];
}

webauthn_credential_delete_revokes_example :
    (native_auth_exchange_consume "y" "v" "acc" (4 * second) (
      run
        (add_credential "a" attested "g2" (3 * second) ∷ [])
        (webauthn_credential_delete "a" (run [] with_y)).1)).0
    ≡ none
unfolding native_auth_exchange_create with_exchanges purge_exchanges overflow_exchanges insert
    new_exchange lookup
webauthn_credential_delete_revokes_example =
    webauthn_credential_delete_revokes "y" "v" "acc" grant second (4 * second) []
      (add_credential "a" attested "g2" (3 * second) ∷ []) accounts with_y refl refl refl refl

few : (purpose : String) → count_open purpose accounts.challenges ≤ 512
unfolding count_open
few purpose = ground arith

run-IsWithinCapacity_example : count_open "register" (run other_calls accounts).challenges ≤ 512
unfolding count_open new_challenge
run-IsWithinCapacity_example = run-IsWithinCapacity other_calls accounts few "register"

webauthn_credential_used_rises_example :
    (webauthn_credential_used "a" assertion
      (9 * second)
      (run other_calls (webauthn_credential_used "a" assertion second accounts).1)).0
    ≡ false
unfolding webauthn_credential_used update_used lookup
webauthn_credential_used_rises_example =
    webauthn_credential_used_rises "a" assertion assertion second (9 * second) other_calls accounts
      refl (omega arith) (omega arith) refl
