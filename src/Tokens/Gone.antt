-- ===== src/Tokens/Gone.antt =====
-- A token of app/db.py that is gone from its table stays away until it is created anew.
use rclone.Tokens.{Accounts, insert, Exchange, Registration}
use rclone.Tokens.Credentials.{
  webauthn_credential_add, webauthn_credential_used, webauthn_credential_delete, with_credentials,
  update_used, new_credential,
}
use rclone.Tokens.Challenges.{
  webauthn_challenge_create, webauthn_challenge_consume, purge_challenges, new_challenge,
  with_challenges,
}
use rclone.Tokens.Exchanges.{
  native_auth_exchange_create, native_auth_exchange_consume, purge_exchanges, new_exchange, redeem,
  with_exchanges, overflow_exchanges,
}
use rclone.Tokens.Registrations.{
  native_webauthn_registration_create, native_webauthn_registration_consume, purge_registrations,
  new_registration, take_up, with_registrations, overflow_registrations,
}
use rclone.Tokens.Calls.{
  Call, add_credential, use_key, delete_credential, create_challenge, consume_challenge,
  create_exchange, consume_exchange, create_registration, consume_registration, step,
  creates_challenge, creates_exchange, creates_registration,
}
use rclone.Base.{
  ℕ, String, ◌≡◌, inl, inr, false, not, none, some, [], ◌∷◌, arith, str_eq, ltb, is_some,
  Option-cases, Table, lookup, lookup-append, lookup-erase, lookup-keep_where-none, drop_where,
}

pub insert-none :
    {V : Type 0} (j k : String) (v : V) (t : Table V)
    → str_eq j k ≡ false
    → lookup k t ≡ none
    → (u : Table V) → insert j v t ≡ some u
    → lookup k u ≡ none
unfolding insert lookup
insert-none j k v t other h u made = ground (arith, lookup-append k t ((j, v) ∷ []))

purge_exchanges-none :
    (key : String) (now : ℕ) (t : Table Exchange)
    → lookup key t ≡ none
    → lookup key (purge_exchanges now t) ≡ none
unfolding purge_exchanges
purge_exchanges-none key now t h =
    let live = drop_where (λ row. ltb row.1.expires_at now) t in
    lookup-keep_where-none (λ row. not (is_some (lookup row.0 (overflow_exchanges 1023 live)))) key
      live (lookup-keep_where-none (λ row. not (ltb row.1.expires_at now)) key t h)

purge_registrations-none :
    (key : String) (now : ℕ) (t : Table Registration)
    → lookup key t ≡ none
    → lookup key (purge_registrations now t) ≡ none
unfolding purge_registrations
purge_registrations-none key now t h =
    let live = drop_where (λ row. ltb row.1.expires_at now) t in
    lookup-keep_where-none (λ row. not (is_some (lookup row.0 (overflow_registrations 255 live))))
      key live (lookup-keep_where-none (λ row. not (ltb row.1.expires_at now)) key t h)

pub challenge_stays_gone :
    (id : String) (c : Call) (s : Accounts)
    → creates_challenge id c ≡ false
    → lookup id s.challenges ≡ none
    → lookup id (step c s).challenges ≡ none
unfolding webauthn_challenge_create webauthn_challenge_consume with_challenges
    webauthn_credential_add with_credentials webauthn_credential_used update_used
    webauthn_credential_delete native_auth_exchange_create with_exchanges
    native_auth_exchange_consume redeem native_webauthn_registration_create with_registrations
    native_webauthn_registration_consume take_up purge_challenges
challenge_stays_gone id (create_challenge i c now) s ok h =
    let live = purge_challenges now s.challenges in
    let gone = lookup-keep_where-none (λ row. not (ltb row.1.expires_at now)) id s.challenges h in
    elim (Option-cases (insert i (new_challenge c now) live)) [
      | inl full ↦ ground arith
      | inr (u, made) ↦ ground (arith, insert-none i id (new_challenge c now) live ok gone u made)
    ]
challenge_stays_gone id (consume_challenge i purpose generation now) s ok h =
    ground (arith, lookup-erase i id s.challenges)
challenge_stays_gone id (add_credential i a generation now) s ok h =
    elim (Option-cases (insert i (new_credential a generation now) s.credentials)) [
      | inl full ↦ ground arith
      | inr (u, made) ↦ ground arith
    ]
challenge_stays_gone id (use_key i a now) s ok h = elim (Option-cases (lookup i s.credentials)) [
  | inl full ↦ ground arith
  | inr (u, made) ↦ ground arith
]
challenge_stays_gone id (delete_credential i) s ok h = h
challenge_stays_gone id (create_exchange hash g now) s ok h = ground arith
challenge_stays_gone id (consume_exchange hash v g now) s ok h = ground arith
challenge_stays_gone id (create_registration hash i now) s ok h = ground arith
challenge_stays_gone id (consume_registration hash v g now) s ok h = ground arith

pub exchange_stays_gone :
    (key : String) (c : Call) (s : Accounts)
    → creates_exchange key c ≡ false
    → lookup key s.exchanges ≡ none
    → lookup key (step c s).exchanges ≡ none
unfolding webauthn_challenge_create webauthn_challenge_consume with_challenges
    webauthn_credential_add with_credentials webauthn_credential_used update_used
    webauthn_credential_delete native_auth_exchange_create with_exchanges
    native_auth_exchange_consume redeem native_webauthn_registration_create with_registrations
    native_webauthn_registration_consume take_up
exchange_stays_gone key (create_exchange i g now) s ok h =
    let kept = purge_exchanges now s.exchanges in
    let gone = purge_exchanges-none key now s.exchanges h in
    elim (Option-cases (insert i (new_exchange g now) kept)) [
      | inl full ↦ ground (arith, gone)
      | inr (u, made) ↦
          ground (arith, gone, insert-none i key (new_exchange g now) kept ok gone u made)
    ]
exchange_stays_gone key (consume_exchange i v g now) s ok h =
    elim (Option-cases (lookup i s.exchanges)) [
      | inl unknown ↦ ground arith
      | inr (u, made) ↦ ground (arith, lookup-erase i key s.exchanges)
    ]
exchange_stays_gone key (add_credential i a generation now) s ok h =
    elim (Option-cases (insert i (new_credential a generation now) s.credentials)) [
      | inl full ↦ ground arith
      | inr (u, made) ↦ ground arith
    ]
exchange_stays_gone key (use_key i a now) s ok h = elim (Option-cases (lookup i s.credentials)) [
  | inl unknown ↦ ground arith
  | inr (u, made) ↦ ground arith
]
exchange_stays_gone key (delete_credential i) s ok h = h
exchange_stays_gone key (create_challenge i c now) s ok h =
    elim (Option-cases (insert i (new_challenge c now) (purge_challenges now s.challenges))) [
      | inl full ↦ ground arith
      | inr (u, made) ↦ ground arith
    ]
exchange_stays_gone key (consume_challenge i p g now) s ok h = h
exchange_stays_gone key (create_registration i r now) s ok h = ground arith
exchange_stays_gone key (consume_registration i v g now) s ok h = ground arith

pub registration_stays_gone :
    (key : String) (c : Call) (s : Accounts)
    → creates_registration key c ≡ false
    → lookup key s.registrations ≡ none
    → lookup key (step c s).registrations ≡ none
unfolding webauthn_challenge_create webauthn_challenge_consume with_challenges
    webauthn_credential_add with_credentials webauthn_credential_used update_used
    webauthn_credential_delete native_auth_exchange_create with_exchanges
    native_auth_exchange_consume redeem native_webauthn_registration_create with_registrations
    native_webauthn_registration_consume take_up
registration_stays_gone key (create_registration i r now) s ok h =
    let kept = purge_registrations now s.registrations in
    let gone = purge_registrations-none key now s.registrations h in
    elim (Option-cases (insert i (new_registration r now) kept)) [
      | inl full ↦ ground (arith, gone)
      | inr (u, made) ↦
          ground (arith, gone, insert-none i key (new_registration r now) kept ok gone u made)
    ]
registration_stays_gone key (consume_registration i v g now) s ok h =
    elim (Option-cases (lookup i s.registrations)) [
      | inl unknown ↦ ground arith
      | inr (u, made) ↦ ground (arith, lookup-erase i key s.registrations)
    ]
registration_stays_gone key (add_credential i a generation now) s ok h =
    elim (Option-cases (insert i (new_credential a generation now) s.credentials)) [
      | inl full ↦ ground arith
      | inr (u, made) ↦ ground arith
    ]
registration_stays_gone key (use_key i a now) s ok h =
    elim (Option-cases (lookup i s.credentials)) [
      | inl unknown ↦ ground arith
      | inr (u, made) ↦ ground arith
    ]
registration_stays_gone key (delete_credential i) s ok h = h
registration_stays_gone key (create_challenge i c now) s ok h =
    elim (Option-cases (insert i (new_challenge c now) (purge_challenges now s.challenges))) [
      | inl full ↦ ground arith
      | inr (u, made) ↦ ground arith
    ]
registration_stays_gone key (consume_challenge i p g now) s ok h = h
registration_stays_gone key (create_exchange i g now) s ok h = ground arith
registration_stays_gone key (consume_exchange i v g now) s ok h = ground arith
