-- ===== src/Tokens/Revocation.antt =====
-- Deleting a passkey ends the exchange tokens that were granted with it (app/db.py).
use rclone.Tokens.{Accounts, Exchange, Credential, insert}
use rclone.Tokens.Credentials.{
  webauthn_credential_add, webauthn_credential_used, webauthn_credential_delete, with_credentials,
  update_used, new_credential, has_generation, use_credential, Attested,
}
use rclone.Tokens.Challenges.{
  webauthn_challenge_create, webauthn_challenge_consume, purge_challenges, new_challenge,
  with_challenges,
}
use rclone.Tokens.Exchanges.{
  Grant, native_auth_exchange_create, native_auth_exchange_consume, purge_exchanges, new_exchange,
  redeem, with_exchanges, overflow_exchanges, is_backed,
}
use rclone.Tokens.Registrations.{
  native_webauthn_registration_create, native_webauthn_registration_consume, take_up,
  with_registrations,
}
use rclone.Tokens.Calls.{
  Call, add_credential, use_key, delete_credential, create_challenge, consume_challenge,
  create_exchange, consume_exchange, create_registration, consume_registration, step, run,
  run-keeps, creates_exchange,
}
use rclone.Base.{
  ℕ, String, ◌≡◌, refl, inl, inr, Bool, true, false, not, ◌&&◌, none, some, List, [], ◌∷◌, arith,
  str_eq, eq_iff, ltb, is_some, Option-cases, AllAt, Table, lookup, All-append, AllAt-erase,
  AllAt-lookup, any_where, drop_where, lookup-upsert, keep_where-All, lookup-append, lookup-erase,
  lookup-erase_same, AllAt-absent,
}

-- The credential is registered with the same generation: what 32 random bytes rule out.
abbrev pub readds : String → String → Call → Bool
readds id generation (add_credential i a g now) = str_eq i id && str_eq g generation
readds id generation _ = false

-- Every row under a token's hash was granted with the credential.
abbrev IsFrom : String → String → Exchange → Type 0
IsFrom id generation x = (x.credential_id ≡ id) × (x.credential_generation ≡ generation)

abbrev IsGrantedWith : String → String → String → Accounts → Type 0
IsGrantedWith hash id generation s = AllAt hash (IsFrom id generation) s.exchanges

abbrev IsWithdrawn : String → String → Accounts → Type 0
IsWithdrawn id generation s = has_generation generation (lookup id s.credentials) ≡ false

insert-AllAt :
    (k j : String) (P : Exchange → Type 0) (x : Exchange) (t u : Table Exchange)
    → str_eq j k ≡ false
    → AllAt k P t
    → insert j x t ≡ some u
    → AllAt k P u
unfolding insert
insert-AllAt k j P x t u other all made =
    let new =
      All-append (λ row. row.0 ≡ k → P row.1) t ((j, x) ∷ []) all
        ((λ same. ground (arith, eq_iff j k)), tt) in
    ground (arith, new)

purge_exchanges-AllAt :
    (k : String) (P : Exchange → Type 0) (now : ℕ) (t : Table Exchange)
    → AllAt k P t
    → AllAt k P (purge_exchanges now t)
unfolding purge_exchanges
purge_exchanges-AllAt k P now t all =
    let Q = λ (row : String × Exchange). row.0 ≡ k → P row.1 in
    let live = drop_where (λ row. ltb row.1.expires_at now) t in
    keep_where-All Q (λ row. not (is_some (lookup row.0 (overflow_exchanges 1023 live)))) live
      (keep_where-All Q (λ row. not (ltb row.1.expires_at now)) t all)

step-IsGrantedWith :
    (hash id generation : String) (c : Call) (s : Accounts)
    → creates_exchange hash c ≡ false
    → IsGrantedWith hash id generation s
    → IsGrantedWith hash id generation (step c s)
unfolding webauthn_challenge_create webauthn_challenge_consume with_challenges
    webauthn_credential_add with_credentials webauthn_credential_used update_used
    webauthn_credential_delete native_auth_exchange_create with_exchanges
    native_auth_exchange_consume redeem native_webauthn_registration_create with_registrations
    native_webauthn_registration_consume take_up
step-IsGrantedWith hash id generation (create_exchange i g now) s ok h =
    let P = IsFrom id generation in
    let kept = purge_exchanges now s.exchanges in
    let all = purge_exchanges-AllAt hash P now s.exchanges h in
    elim (Option-cases (insert i (new_exchange g now) kept)) [
      | inl full ↦ ground (arith, h, all)
      | inr (u, made) ↦
          ground (arith, h, all, insert-AllAt hash i P (new_exchange g now) kept u ok all made)
    ]
step-IsGrantedWith hash id generation (consume_exchange i v g now) s ok h =
    let P = IsFrom id generation in
    elim (Option-cases (lookup i s.exchanges)) [
      | inl unknown ↦ ground (arith, h)
      | inr (u, made) ↦ ground (arith, h, AllAt-erase hash P i s.exchanges h)
    ]
step-IsGrantedWith hash id generation (add_credential i a g now) s ok h =
    elim (Option-cases (insert i (new_credential a g now) s.credentials)) [
      | inl full ↦ ground (arith, h)
      | inr (u, made) ↦ ground (arith, h)
    ]
step-IsGrantedWith hash id generation (use_key i a now) s ok h =
    elim (Option-cases (lookup i s.credentials)) [
      | inl unknown ↦ ground (arith, h)
      | inr (u, made) ↦ ground (arith, h)
    ]
step-IsGrantedWith hash id generation (delete_credential i) s ok h = h
step-IsGrantedWith hash id generation (create_challenge i c now) s ok h =
    elim (Option-cases (insert i (new_challenge c now) (purge_challenges now s.challenges))) [
      | inl full ↦ ground (arith, h)
      | inr (u, made) ↦ ground (arith, h)
    ]
step-IsGrantedWith hash id generation (consume_challenge i p g now) s ok h = h
step-IsGrantedWith hash id generation (create_registration i r now) s ok h = ground (arith, h)
step-IsGrantedWith hash id generation (consume_registration i v g now) s ok h = ground (arith, h)

insert-IsWithdrawn :
    (id generation i : String) (a : Attested) (g : String) (now : ℕ) (s : Accounts)
    (t : Table Credential)
    → readds id generation (add_credential i a g now) ≡ false
    → IsWithdrawn id generation s
    → insert i (new_credential a g now) s.credentials ≡ some t
    → has_generation generation (lookup id t) ≡ false
unfolding insert lookup new_credential
insert-IsWithdrawn id generation i a g now s t ok h made =
    ground (arith, h, lookup-append id s.credentials ((i, new_credential a g now) ∷ []))

-- A credential that is away or has another generation stays so, unless it is added with this one.
step-IsWithdrawn :
    (id generation : String) (c : Call) (s : Accounts)
    → readds id generation c ≡ false
    → IsWithdrawn id generation s
    → IsWithdrawn id generation (step c s)
unfolding webauthn_challenge_create webauthn_challenge_consume with_challenges
    webauthn_credential_add with_credentials webauthn_credential_used update_used
    webauthn_credential_delete native_auth_exchange_create with_exchanges
    native_auth_exchange_consume redeem native_webauthn_registration_create with_registrations
    native_webauthn_registration_consume take_up
step-IsWithdrawn id generation (add_credential i a g now) s ok h =
    elim (Option-cases (insert i (new_credential a g now) s.credentials)) [
      | inl full ↦ ground (arith, h)
      | inr (t, made) ↦ ground (arith, h, insert-IsWithdrawn id generation i a g now s t ok h made)
    ]
step-IsWithdrawn id generation (use_key i a now) s ok h =
    elim (Option-cases (lookup i s.credentials)) [
      | inl unknown ↦ ground (arith, h)
      | inr (c, found) ↦
          ground (
            arith,
            h,
            found,
            eq_iff i id,
            lookup-upsert i id (use_credential a now c) s.credentials,
          )
    ]
step-IsWithdrawn id generation (delete_credential i) s ok h =
    ground (arith, h, lookup-erase i id s.credentials)
step-IsWithdrawn id generation (create_challenge i c now) s ok h =
    elim (Option-cases (insert i (new_challenge c now) (purge_challenges now s.challenges))) [
      | inl full ↦ ground (arith, h)
      | inr (u, made) ↦ ground (arith, h)
    ]
step-IsWithdrawn id generation (consume_challenge i p g now) s ok h = h
step-IsWithdrawn id generation (create_exchange i g now) s ok h = ground (arith, h)
step-IsWithdrawn id generation (consume_exchange i v g now) s ok h = ground (arith, h)
step-IsWithdrawn id generation (create_registration i r now) s ok h = ground (arith, h)
step-IsWithdrawn id generation (consume_registration i v g now) s ok h = ground (arith, h)

insert-AllAt_new :
    (k : String) (P : Exchange → Type 0) (x : Exchange) (t u : Table Exchange)
    → P x
    → insert k x t ≡ some u
    → AllAt k P u
unfolding insert
insert-AllAt_new k P x t u h made = elim (Option-cases (lookup k t)) [
  | inl absent ↦
      let new =
        All-append (λ row. row.0 ≡ k → P row.1) t ((k, x) ∷ []) (AllAt-absent k P t absent)
          ((λ same. h), tt) in
      ground (arith, new)
  | inr (y, present) ↦ ground arith
]

created :
    (hash : String) (g : Grant) (now : ℕ) (s s' : Accounts)
    → native_auth_exchange_create hash g now s ≡ some (true, s')
    → IsGrantedWith hash g.credential_id g.credential_generation s'
unfolding native_auth_exchange_create with_exchanges new_exchange
created hash g now s s' made =
    let kept = purge_exchanges now s.exchanges in
    let P = IsFrom g.credential_id g.credential_generation in
    elim (Option-cases (insert hash (new_exchange g now) kept)) [
      | inl full ↦ ground arith
      | inr (u, done) ↦
          ground (arith, insert-AllAt_new hash P (new_exchange g now) kept u (refl, refl) done)
    ]

redeem-IsWithdrawn :
    (hash verifier generation id g : String) (now : ℕ) (s : Accounts)
    → IsGrantedWith hash id g s
    → IsWithdrawn id g s
    → (native_auth_exchange_consume hash verifier generation now s).0 ≡ none
unfolding native_auth_exchange_consume redeem is_backed
redeem-IsWithdrawn hash verifier generation id g now s from gone =
    elim (Option-cases (lookup hash s.exchanges)) [
      | inl unknown ↦ ground arith
      | inr (x, found) ↦
          let h = AllAt-lookup hash (IsFrom id g) s.exchanges x from found in
          ground (arith, found, gone, h.0, h.1)
    ]

-- Once a credential is deleted, no exchange token that was created with it is redeemed, whatever
-- calls come before and after, unless a token of the same hash is created anew or the credential is
-- added again with the same generation.
pub webauthn_credential_delete_revokes :
    (hash verifier generation : String) (g : Grant) (now later : ℕ) (before after : List Call)
    (s s' : Accounts)
    → native_auth_exchange_create hash g now s ≡ some (true, s')
    → any_where (creates_exchange hash) before ≡ false
    → any_where (creates_exchange hash) after ≡ false
    → any_where (readds g.credential_id g.credential_generation) after ≡ false
    → (native_auth_exchange_consume hash verifier generation later
        (run after (webauthn_credential_delete g.credential_id (run before s')).1)).0
      ≡ none
unfolding webauthn_credential_delete
webauthn_credential_delete_revokes hash verifier generation g now later before after s s' made fresh
      fresh' gone =
    let id = g.credential_id in
    let gen = g.credential_generation in
    let start = run before s' in
    let deleted = (webauthn_credential_delete id start).1 in
    redeem-IsWithdrawn hash verifier generation id gen later (run after deleted)
      (run-keeps (IsGrantedWith hash id gen) (creates_exchange hash)
        (step-IsGrantedWith hash id gen) after deleted fresh'
        (run-keeps (IsGrantedWith hash id gen) (creates_exchange hash)
          (step-IsGrantedWith hash id gen) before s' fresh (created hash g now s s' made)))
      (run-keeps (IsWithdrawn id gen) (readds id gen) (step-IsWithdrawn id gen) after deleted gone
        (rw (lookup-erase_same id start.credentials) refl))
