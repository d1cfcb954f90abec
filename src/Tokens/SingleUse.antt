-- ===== src/Tokens/SingleUse.antt =====
-- A token of app/db.py that was consumed is not accepted again.
use rclone.Tokens.{Accounts, Registration}
use rclone.Tokens.Challenges.{webauthn_challenge_consume, answer}
use rclone.Tokens.Exchanges.{native_auth_exchange_consume, redeem}
use rclone.Tokens.Registrations.{native_webauthn_registration_consume, take_up}
use rclone.Tokens.Calls.{
  Call, run, run-keeps, creates_challenge, creates_exchange, creates_registration,
}
use rclone.Tokens.Gone.{challenge_stays_gone, exchange_stays_gone, registration_stays_gone}
use rclone.Base.{
  ℕ, String, ◌≡◌, refl, inl, inr, false, none, some, List, arith, Option-cases, any_where, lookup,
  erase, lookup-erase_same,
}

exchange_erased :
    (hash verifier generation user : String) (now : ℕ) (s : Accounts)
    → (native_auth_exchange_consume hash verifier generation now s).0 ≡ some user
    → lookup hash (native_auth_exchange_consume hash verifier generation now s).1.exchanges ≡ none
unfolding native_auth_exchange_consume redeem
exchange_erased hash verifier generation user now s done =
    elim (Option-cases (lookup hash s.exchanges)) [
      | inl unknown ↦ ground arith
      | inr (x, found) ↦ ground (arith, lookup-erase_same hash s.exchanges)
    ]

registration_erased :
    (hash verifier generation : String) (r : Registration) (now : ℕ) (s : Accounts)
    → (native_webauthn_registration_consume hash verifier generation now s).0 ≡ some r
    → lookup hash
        (native_webauthn_registration_consume hash verifier generation now s).1.registrations
      ≡ none
unfolding native_webauthn_registration_consume take_up
registration_erased hash verifier generation r now s done =
    elim (Option-cases (lookup hash s.registrations)) [
      | inl unknown ↦ ground arith
      | inr (x, found) ↦ ground (arith, lookup-erase_same hash s.registrations)
    ]

-- A challenge is answered at most once: after the first attempt, right or wrong, no call can
-- consume it, whatever calls come in between, unless a challenge of the same id is created anew.
pub webauthn_challenge_consume_once :
    (id purpose purpose' generation generation' : String) (now later : ℕ) (cs : List Call)
    (s : Accounts)
    → any_where (creates_challenge id) cs ≡ false
    → (webauthn_challenge_consume id purpose' generation' later
        (run cs (webauthn_challenge_consume id purpose generation now s).1)).0
      ≡ none
unfolding webauthn_challenge_consume answer
webauthn_challenge_consume_once id purpose purpose' generation generation' now later cs s fresh =
    let s' = record s { challenges = erase id s.challenges } in
    rw
      (run-keeps (λ s. lookup id s.challenges ≡ none) (creates_challenge id)
        (challenge_stays_gone id) cs s' fresh (lookup-erase_same id s.challenges))
      refl

-- An exchange token that was redeemed is not redeemed again, whatever calls come in between,
-- unless a token of the same hash is created anew.
pub native_auth_exchange_consume_once :
    (hash verifier verifier' generation generation' user : String) (now later : ℕ) (cs : List Call)
    (s : Accounts)
    → (native_auth_exchange_consume hash verifier generation now s).0 ≡ some user
    → any_where (creates_exchange hash) cs ≡ false
    → (native_auth_exchange_consume hash verifier' generation' later
        (run cs (native_auth_exchange_consume hash verifier generation now s).1)).0
      ≡ none
unfolding native_auth_exchange_consume redeem
native_auth_exchange_consume_once hash verifier verifier' generation generation' user now later cs s
      done fresh =
    let s' = (native_auth_exchange_consume hash verifier generation now s).1 in
    rw
      (run-keeps (λ s. lookup hash s.exchanges ≡ none) (creates_exchange hash)
        (exchange_stays_gone hash) cs s' fresh
        (exchange_erased hash verifier generation user now s done))
      refl

-- A registration token that was used is not accepted again, whatever calls come in between,
-- unless a token of the same hash is created anew.
pub native_webauthn_registration_consume_once :
    (hash verifier verifier' generation generation' : String) (r : Registration) (now later : ℕ)
    (cs : List Call) (s : Accounts)
    → (native_webauthn_registration_consume hash verifier generation now s).0 ≡ some r
    → any_where (creates_registration hash) cs ≡ false
    → (native_webauthn_registration_consume hash verifier' generation' later
        (run cs (native_webauthn_registration_consume hash verifier generation now s).1)).0
      ≡ none
unfolding native_webauthn_registration_consume take_up
native_webauthn_registration_consume_once hash verifier verifier' generation generation' r now later
      cs s done fresh =
    let s' = (native_webauthn_registration_consume hash verifier generation now s).1 in
    rw
      (run-keeps (λ s. lookup hash s.registrations ≡ none) (creates_registration hash)
        (registration_stays_gone hash) cs s' fresh
        (registration_erased hash verifier generation r now s done))
      refl
