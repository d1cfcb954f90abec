-- ===== src/Tokens/Counters.antt =====
-- The signature counters of the credentials of app/db.py, which expose a cloned authenticator.
use rclone.Tokens.{Accounts, Credential, insert}
use rclone.Tokens.Credentials.{
  webauthn_credential_add, webauthn_credential_used, webauthn_credential_delete, with_credentials,
  update_used, new_credential, use_credential, Assertion,
}
use rclone.Tokens.Challenges.{
  webauthn_challenge_create, webauthn_challenge_consume, purge_challenges, new_challenge,
  with_challenges,
}
use rclone.Tokens.Exchanges.{
  native_auth_exchange_create, native_auth_exchange_consume, redeem, with_exchanges,
}
use rclone.Tokens.Registrations.{
  native_webauthn_registration_create, native_webauthn_registration_consume, take_up,
  with_registrations,
}
use rclone.Tokens.Calls.{
  Call, add_credential, use_key, delete_credential, create_challenge, consume_challenge,
  create_exchange, consume_exchange, create_registration, consume_registration, step, run,
  run-keeps,
}
use rclone.Base.{
  ℕ, ◌≤◌, String, ◌≡◌, inl, inr, Bool, true, false, Option, none, some, List, [], ◌∷◌, arith,
  str_eq, eq_iff, eq_refl, Option-cases, Table, lookup, any_where, lookup-append, lookup-erase,
  lookup-upsert,
}

abbrev pub removes : String → Call → Bool
removes id (delete_credential i) = str_eq i id
removes id _ = false

-- The counter of a credential that is registered, at least n.
abbrev HasCount : ℕ → Option Credential → Type 0
HasCount n none = ⊥
HasCount n (some c) = n ≤ c.sign_count

insert-HasCount :
    (n : ℕ) (id i : String) (c : Credential) (t u : Table Credential)
    → HasCount n (lookup id t)
    → insert i c t ≡ some u
    → HasCount n (lookup id u)
unfolding insert
insert-HasCount n id i c t u h made = elim (Option-cases (lookup id t)) [
  | inl absent ↦ ground (arith, h)
  | inr (d, found) ↦ ground (arith, h, found, lookup-append id t ((i, c) ∷ []))
]

step-HasCount :
    (n : ℕ) (id : String) (c : Call) (s : Accounts)
    → removes id c ≡ false
    → HasCount n (lookup id s.credentials)
    → HasCount n (lookup id (step c s).credentials)
unfolding webauthn_challenge_create webauthn_challenge_consume with_challenges
    webauthn_credential_add with_credentials webauthn_credential_used update_used
    webauthn_credential_delete use_credential native_auth_exchange_create with_exchanges
    native_auth_exchange_consume redeem native_webauthn_registration_create with_registrations
    native_webauthn_registration_consume take_up
step-HasCount n id (add_credential i a g now) s ok h =
    elim (Option-cases (insert i (new_credential a g now) s.credentials)) [
      | inl full ↦ ground (arith, h)
      | inr (u, made) ↦
          ground (arith, h, insert-HasCount n id i (new_credential a g now) s.credentials u h made)
    ]
step-HasCount n id (use_key i a now) s ok h = elim (Option-cases (lookup i s.credentials)) [
  | inl unknown ↦ ground (arith, h)
  | inr (c, found) ↦
      ground
        (arith, h, found, eq_iff i id, lookup-upsert i id (use_credential a now c) s.credentials)
]
step-HasCount n id (delete_credential i) s ok h = ground (arith, h, lookup-erase i id s.credentials)
step-HasCount n id (create_challenge i c now) s ok h =
    elim (Option-cases (insert i (new_challenge c now) (purge_challenges now s.challenges))) [
      | inl full ↦ ground (arith, h)
      | inr (u, made) ↦ ground (arith, h)
    ]
step-HasCount n id (consume_challenge i p g now) s ok h = h
step-HasCount n id (create_exchange i g now) s ok h = ground (arith, h)
step-HasCount n id (consume_exchange i v g now) s ok h = ground (arith, h)
step-HasCount n id (create_registration i r now) s ok h = ground (arith, h)
step-HasCount n id (consume_registration i v g now) s ok h = ground (arith, h)

refused-HasCount :
    (id : String) (b : Assertion) (n later : ℕ) (s : Accounts)
    → HasCount n (lookup id s.credentials)
    → 1 ≤ n
    → b.sign_count ≤ n
    → (webauthn_credential_used id b later s).0 ≡ false
unfolding webauthn_credential_used update_used
refused-HasCount id b n later s h counted old = elim (Option-cases (lookup id s.credentials)) [
  | inl unknown ↦ ground (arith, h)
  | inr (c, found) ↦ ground (arith, h, found)
]

used-HasCount :
    (id : String) (a : Assertion) (now : ℕ) (s : Accounts)
    → (webauthn_credential_used id a now s).0 ≡ true
    → HasCount a.sign_count (lookup id (webauthn_credential_used id a now s).1.credentials)
unfolding webauthn_credential_used update_used use_credential
used-HasCount id a now s done = elim (Option-cases (lookup id s.credentials)) [
  | inl unknown ↦ ground arith
  | inr (c, found) ↦
      ground (arith, found, eq_refl id, lookup-upsert id id (use_credential a now c) s.credentials)
]

-- Once an assertion with a nonzero signature counter was accepted, no assertion for the credential
-- with a counter that is not above it is accepted, whatever calls come in between, while the
-- credential is not deleted.
pub webauthn_credential_used_rises :
    (id : String) (a b : Assertion) (now later : ℕ) (cs : List Call) (s : Accounts)
    → (webauthn_credential_used id a now s).0 ≡ true
    → 1 ≤ a.sign_count
    → b.sign_count ≤ a.sign_count
    → any_where (removes id) cs ≡ false
    → (webauthn_credential_used id b later (run cs (webauthn_credential_used id a now s).1)).0
      ≡ false
webauthn_credential_used_rises id a b now later cs s done counted old kept =
    let start = (webauthn_credential_used id a now s).1 in
    refused-HasCount id b a.sign_count later (run cs start)
      (run-keeps (λ s. HasCount a.sign_count (lookup id s.credentials)) (removes id)
        (step-HasCount a.sign_count id) cs start kept (used-HasCount id a now s done))
      counted old
