-- ===== src/Tokens/Capacity.antt =====
-- How many challenges app/db.py keeps open.
use rclone.Tokens.{Accounts, insert, Challenge}
use rclone.Tokens.Credentials.{
  webauthn_credential_add, webauthn_credential_used, webauthn_credential_delete, with_credentials,
  update_used, new_credential,
}
use rclone.Tokens.Challenges.{
  webauthn_challenge_create, webauthn_challenge_consume, purge_challenges, new_challenge,
  with_challenges, Ceremony, count_open,
}
use rclone.Tokens.Exchanges.{
  native_auth_exchange_create, native_auth_exchange_consume, redeem, with_exchanges,
}
use rclone.Tokens.Registrations.{
  native_webauthn_registration_create, native_webauthn_registration_consume, take_up,
  with_registrations,
}
use rclone.Tokens.Calls.{
  Call, add_credential, use_key, delete_credential, create_challenge, consume_challenge,
  create_exchange, consume_exchange, create_registration, consume_registration, step, run,
}
use rclone.Base.{
  ℕ, ◌+◌, ◌≤◌, String, ◌≡◌, inl, inr, not, some, List, [], ◌∷◌, arith, str_eq, eq_iff, ltb,
  if◌then◌else◌, Option-cases, lookup, Table, count-append, count-keep_where-le,
  lookup-keep_where-some, lookup-append, erase, count-erase-le,
}

abbrev IsWithinCapacity : Accounts → Type 0
IsWithinCapacity s = (purpose : String) → count_open purpose s.challenges ≤ 512

insert_count :
    (p : String) (id : String) (c : Challenge) (t u : Table Challenge)
    → insert id c t ≡ some u
    → count_open p u ≡ count_open p t + (if str_eq c.purpose p then 1 else 0)
unfolding insert count_open
insert_count p id c t u made =
    ground (arith, count-append (λ row. str_eq row.1.purpose p) t ((id, c) ∷ []))

purge_count :
    (p : String) (now : ℕ) (t : Table Challenge)
    → count_open p (purge_challenges now t) ≤ count_open p t
unfolding purge_challenges count_open
purge_count p now t =
    count-keep_where-le (λ row. str_eq row.1.purpose p) (λ row. not (ltb row.1.expires_at now)) t

erase_count : (p id : String) (t : Table Challenge) → count_open p (erase id t) ≤ count_open p t
unfolding count_open
erase_count p id t = count-erase-le (λ row. str_eq row.1.purpose p) id t

step-IsWithinCapacity : (c : Call) (s : Accounts) → IsWithinCapacity s → IsWithinCapacity (step c s)
unfolding webauthn_challenge_create webauthn_challenge_consume with_challenges
    webauthn_credential_add with_credentials webauthn_credential_used update_used
    webauthn_credential_delete native_auth_exchange_create with_exchanges
    native_auth_exchange_consume redeem native_webauthn_registration_create with_registrations
    native_webauthn_registration_consume take_up new_challenge
step-IsWithinCapacity (create_challenge i c now) s h p =
    let live = purge_challenges now s.challenges in
    elim (Option-cases (insert i (new_challenge c now) live)) [
      | inl full ↦ ground (arith, h p)
      | inr (u, made) ↦ ground (
        arith,
        h p,
        insert_count p i (new_challenge c now) live u made,
        purge_count p now s.challenges,
        eq_iff c.purpose p,
      )
    ]
step-IsWithinCapacity (consume_challenge i purpose g now) s h p =
    omega (arith, h p, erase_count p i s.challenges)
step-IsWithinCapacity (add_credential i a g now) s h p =
    elim (Option-cases (insert i (new_credential a g now) s.credentials)) [
      | inl full ↦ ground (arith, h p)
      | inr (t, made) ↦ ground (arith, h p)
    ]
step-IsWithinCapacity (use_key i a now) s h p = elim (Option-cases (lookup i s.credentials)) [
  | inl unknown ↦ ground (arith, h p)
  | inr (c, found) ↦ ground (arith, h p)
]
step-IsWithinCapacity (delete_credential i) s h p = h p
step-IsWithinCapacity (create_exchange i g now) s h p = ground (arith, h p)
step-IsWithinCapacity (consume_exchange i v g now) s h p = ground (arith, h p)
step-IsWithinCapacity (create_registration i r now) s h p = ground (arith, h p)
step-IsWithinCapacity (consume_registration i v g now) s h p = ground (arith, h p)

-- Whatever is called, at most 512 challenges of each purpose are open, if that held before.
pub run-IsWithinCapacity :
    (cs : List Call) (s : Accounts)
    → ((purpose : String) → count_open purpose s.challenges ≤ 512)
    → (purpose : String) → count_open purpose (run cs s).challenges ≤ 512
run-IsWithinCapacity [] s h purpose = h purpose
run-IsWithinCapacity (c ∷ cs) s h purpose =
    run-IsWithinCapacity cs (step c s) (step-IsWithinCapacity c s h) purpose

-- A new challenge displaces no challenge that has not expired.
pub webauthn_challenge_create_keeps :
    (id other : String) (c : Ceremony) (x : Challenge) (now : ℕ) (s s' : Accounts)
    → webauthn_challenge_create id c now s ≡ some s'
    → lookup other s.challenges ≡ some x
    → now ≤ x.expires_at
    → lookup other s'.challenges ≡ some x
unfolding webauthn_challenge_create with_challenges purge_challenges insert
webauthn_challenge_create_keeps id other c x now s s' made found live =
    let rows = purge_challenges now s.challenges in
    let kept =
      lookup-keep_where-some (λ row. not (ltb row.1.expires_at now)) other x s.challenges
        (ground arith) found in
    elim (Option-cases (insert id (new_challenge c now) rows)) [
      | inl full ↦ ground arith
      | inr (u, done) ↦
          ground (arith, kept, lookup-append other rows ((id, new_challenge c now) ∷ []))
    ]
