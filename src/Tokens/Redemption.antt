-- ===== src/Tokens/Redemption.antt =====
-- When the tokens of app/db.py behind a login with a passkey are accepted, and what a wrong guess
-- changes.
use rclone.Throttle.{second}
use rclone.Tokens.Challenges.{
  purge_challenges, Ceremony, webauthn_challenge_create, webauthn_challenge_consume, new_challenge,
  answer, with_challenges,
}
use mathlib.Core.Option.{some-injective}
use rclone.Tokens.{insert, Accounts, Exchange, Challenge}
use rclone.Tokens.Exchanges.{native_auth_exchange_consume, redeem, is_backed, is_redeemable}
use rclone.Base.{
  ℕ, ◌+◌, ◌*◌, ◌≤◌, String, ◌≡◌, refl, ◌↔◌, inl, inr, true, false, ◌&&◌, Option, none, some, [],
  ◌∷◌, arith, eq_iff, eq_refl, clamp, Bool-cases, Option-cases, is_empty, lookup, Table,
  lookup-append,
}

-- What a token must be for the caller to be logged in.
pub record IsGranted (s : Accounts) (verifier generation user : String) (now : ℕ) (x : Exchange)
    : Type 0 where
  pub names_user : x.username ≡ user
  pub in_time : now ≤ x.expires_at
  pub same_verifier : x.verifier_hash ≡ verifier
  pub same_generation : x.account_generation ≡ generation
  pub known_generation : is_empty generation ≡ false
  pub credential_lives : is_backed s.credentials x ≡ true

to_IsGranted :
    (s : Accounts) (verifier generation user : String) (now : ℕ) (x : Exchange)
    → is_backed s.credentials x && is_redeemable verifier generation now x ≡ true
    → x.username ≡ user
    → IsGranted s verifier generation user now x
to_IsGranted s verifier generation user now x valid named = record {
  names_user = named;
  in_time = ground (arith, valid);
  same_verifier = ground (arith, eq_iff x.verifier_hash verifier);
  same_generation = ground (arith, eq_iff x.account_generation generation);
  known_generation = ground (arith, valid);
  credential_lives = ground (arith, valid);
}

of_IsGranted :
    (s : Accounts) (verifier generation user : String) (now : ℕ) (x : Exchange)
    → IsGranted s verifier generation user now x
    → is_backed s.credentials x && is_redeemable verifier generation now x ≡ true
of_IsGranted s verifier generation user now x h = ground (
  arith,
  h.in_time,
  h.same_verifier,
  h.same_generation,
  h.known_generation,
  h.credential_lives,
  eq_iff x.verifier_hash verifier,
  eq_iff x.account_generation generation,
)

redeem-IsGranted :
    (hash verifier generation user : String) (now : ℕ) (s : Accounts) (o : Option Exchange)
    → (redeem hash verifier generation now s o).0 ≡ some user
    → (x : Exchange) × (o ≡ some x) × IsGranted s verifier generation user now x
unfolding redeem
redeem-IsGranted hash verifier generation user now s none accepted = cc
redeem-IsGranted hash verifier generation user now s (some x) accepted =
    elim (Bool-cases (is_backed s.credentials x && is_redeemable verifier generation now x)) [
      | inl valid ↦ (
        x,
        refl,
        to_IsGranted s verifier generation user now x valid
            (some-injective x.username user (ground (arith, accepted))),
      )
      | inr bad ↦ ground (arith, accepted)
    ]

-- An exchange token logs a user in exactly if its row names that user, has not expired, holds the
-- verifier's hash and the account's generation, which is not empty, and its credential is still
-- registered as it was.
pub native_auth_exchange_consume_accepts :
    (hash verifier generation user : String) (now : ℕ) (s : Accounts)
    → ((native_auth_exchange_consume hash verifier generation now s).0 ≡ some user) ↔ (
        (x : Exchange) × (lookup hash s.exchanges ≡ some x)
        × IsGranted s verifier generation user now x)
unfolding native_auth_exchange_consume redeem
native_auth_exchange_consume_accepts hash verifier generation user now s = (
  redeem-IsGranted hash verifier generation user now s (lookup hash s.exchanges),
  λ h. ground (arith, h.1, of_IsGranted s verifier generation user now h.0 h.2, h.2.names_user),
)

inserted :
    (id : String) (c : Challenge) (t u : Table Challenge)
    → insert id c t ≡ some u
    → lookup id u ≡ some c
unfolding insert lookup
inserted id c t u made = ground (arith, lookup-append id t ((id, c) ∷ []), eq_refl id)

-- A challenge that was created is answered until it expires, by a caller who states its purpose
-- and its account generation.
pub webauthn_challenge_roundtrip :
    (id : String) (c : Ceremony) (created now : ℕ) (s s' : Accounts)
    → webauthn_challenge_create id c created s ≡ some s'
    → now ≤ created + clamp 30 600 c.ttl_seconds * second
    → is_empty c.account_generation ≡ false
    → (webauthn_challenge_consume id c.purpose c.account_generation now s').0
      ≡ some (new_challenge c created)
unfolding webauthn_challenge_create webauthn_challenge_consume answer with_challenges new_challenge
webauthn_challenge_roundtrip id c created now s s' made live known =
    let t = purge_challenges created s.challenges in
    elim (Option-cases (insert id (new_challenge c created) t)) [
      | inl full ↦ ground arith
      | inr (u, done) ↦ ground (
        arith,
        inserted id (new_challenge c created) t u done,
        eq_refl c.purpose,
        eq_refl c.account_generation,
      )
    ]
