-- ===== src/Auth/Tokens/Revoked.antt =====
-- A token after its revocation, whatever is issued and revoked later
-- (backend/services/auth/internal/app/credential.go).
use ec_test.Base.{
  ℕ, ◌≡◌, refl, sym, subst, ◌∙◌, inl, inr, Bool, true, false, not, ◌&&◌, ◌||◌, Option, none, some,
  List, [], ◌∷◌, ◌==◌, ==_iff, if◌then◌else◌, arith, Bool-cases, either,
}
use ec_test.Base.Tx.{Result, ok, err}
use ec_test.Base.Rows.{find_by, count_by, has, count-found}
use ec_test.Auth.Domain.{owner}
use ec_test.Auth.Store.{Db, is_some, check_seller_role}
use ec_test.Auth.Team.{ranks}
use ec_test.Auth.Tokens.Text.{
  Text, Read, is_empty, generate_base62, lookup_chars, secret_chars, plaintext_of,
}
use ec_test.Auth.Tokens.Dead.{live, IsDead, after, count-revoked, count-later, find-later}
use ec_test.Auth.Tokens.Store.{
  SellerApiToken, same_text, get_by_lookup, create_token, fits_token, has_lookup, revoke_token,
}
use ec_test.Auth.Tokens.Service.{
  TokenError, Library, Request, created, valid_input, new_token, issue_generated, issue_api_token,
  lookup_api_token, check_found, is_expired, token_revoked, token_expired, invalid_format, owned_by,
  revoked, revoke_found, revoke_api_token,
}

-- What the call of `RevokeAPIToken` leaves.
Dies : ℕ → Result TokenError (Text × Text) × List SellerApiToken → Type 0
unfolding IsDead
Dies id (ok a, ts) = IsDead id ts
Dies id (err e, ts) = Unit {0}

module _ (id actor now : ℕ) (ts : List SellerApiToken) where
  IsDead-after :
      is_some (find_by (has (λ x. x.id) id) ts) ≡ true → IsDead id (after id actor now ts)
  unfolding IsDead
  IsDead-after h = (find-later id actor now id ts ∙ h, count-revoked id actor now ts)

  revoked-Dies : (t : SellerApiToken) → Dies id (revoked t ts (revoke_token id actor now ts))
  unfolding revoke_token Dies after
  revoked-Dies t = elim (Bool-cases (is_some (find_by (has (λ x. x.id) id) ts))) [
    | inl c ↦
        subst (λ b. Dies id (revoked t ts (if b then some (after id actor now ts) else none)))
          (sym c) (IsDead-after c)
    | inr c ↦
        subst (λ b. Dies id (revoked t ts (if b then some (after id actor now ts) else none)))
          (sym c) tt
  ]

  revoke_api_token-Dies :
      (db : Db) (seller_id : ℕ) → Dies id (revoke_api_token db seller_id actor id now ts)
  unfolding revoke_api_token Dies revoke_found
  revoke_api_token-Dies db seller_id =
      either (Dies id) (actor == 0) _ _ tt
        (found (owned_by seller_id (find_by (has (λ x. x.id) id) ts)))
    where
      found : (o : Option SellerApiToken) → Dies id (revoke_found db seller_id actor id now ts o)
      found none = tt
      found (some t) =
          either (Dies id) (ranks (check_seller_role seller_id actor db) owner) _ _ (revoked-Dies t)
            tt

abbrev Leaves : {A : Type 0} → ℕ → A × List SellerApiToken → Type 0
Leaves k (a, ts) = IsDead k ts

not_first : (a b c d e f : Bool) → (not a && b && c && d && e && f) ≡ true → a ≡ true → true ≡ false
not_first a b c d e f h l = ground arith

-- A dead id stays dead.
module _ (k : ℕ) where
  module _ (id actor now : ℕ) (ts : List SellerApiToken) (dead : IsDead k ts) where
    IsDead-later : IsDead k (after id actor now ts)
    unfolding IsDead
    IsDead-later = (find-later id actor now k ts ∙ dead.0, count-later id actor now k ts dead.1)

    revoked-IsDead : (t : SellerApiToken) → IsDead k (revoked t ts (revoke_token id actor now ts)).1
    unfolding revoke_token after
    revoked-IsDead t =
        elim (is_some (find_by (has (λ x. x.id) id) ts))
          as (λ b. IsDead k (revoked t ts (if b then some (after id actor now ts) else none)).1) [
            | true ↦ IsDead-later
            | false ↦ dead
          ]

    revoke_api_token-IsDead :
        (db : Db) (seller_id : ℕ) → IsDead k (revoke_api_token db seller_id actor id now ts).1
    unfolding revoke_api_token revoke_found
    revoke_api_token-IsDead db seller_id =
        either (Leaves k) (actor == 0) _ _ dead
          (found (owned_by seller_id (find_by (has (λ x. x.id) id) ts)))
      where
        found :
            (o : Option SellerApiToken) → IsDead k (revoke_found db seller_id actor id now ts o).1
        found none = dead
        found (some t) =
            either (Leaves k) (ranks (check_seller_role seller_id actor db) owner) _ _
              (revoked-IsDead t) dead

  module _ (library : Library) (db : Db) (actor : ℕ) (r : Request) (id : ℕ)
      (ts : List SellerApiToken) (dead : IsDead k ts) where
    new-IsDead : (t : SellerApiToken) → fits_token t ts ≡ true → IsDead k (t ∷ ts)
    unfolding IsDead find_by count_by
    new-IsDead t h = elim (Bool-cases (t.id == k)) [
      | inl c ↦
          let taken : is_some (find_by (has (λ x. x.id) t.id) ts) ≡ true =
            subst (λ n. is_some (find_by (has (λ x. x.id) n) ts) ≡ true) (sym ((==_iff t.id k).0 c))
              dead.0 in
          let clash : true ≡ false = not_first _ _ _ _ _ _ h taken in ground arith
      | inr c ↦ (ground (arith, dead.0), ground (arith, dead.1))
    ]

    created-IsDead :
        (t : SellerApiToken) (plaintext : Text)
        → IsDead k (created library t plaintext ts (create_token t ts)).1
    unfolding create_token
    created-IsDead t plaintext = elim (Bool-cases (fits_token t ts)) [
      | inl c ↦
          subst
            (λ b. IsDead k (created library t plaintext ts (if b then some (t ∷ ts) else none)).1)
            (sym c) (new-IsDead t c)
      | inr c ↦
          subst
            (λ b. IsDead k (created library t plaintext ts (if b then some (t ∷ ts) else none)).1)
            (sym c) dead
    ]

    issue_api_token-IsDead :
        (reads reads' : List Read) (now : ℕ)
        → IsDead k (issue_api_token library db actor r id reads reads' now ts).1
    unfolding issue_api_token issue_generated
    issue_api_token-IsDead reads reads' now =
        either (Leaves k)
          (valid_input (library.trim_space r.name) r.scopes r.rate_limit_rps r.rate_limit_burst
            r.expires_at now)
          _ _
          (either (Leaves k) (actor == 0) _ _ dead
            (generated (generate_base62 lookup_chars reads) (generate_base62 secret_chars reads')))
          dead
      where
        generated :
            (lookup secret : Option Text)
            → IsDead k (issue_generated library db actor r id lookup secret ts).1
        generated none secret = dead
        generated (some lookup) none = dead
        generated (some lookup) (some secret) =
            either (Leaves k) (ranks (check_seller_role r.seller_id actor db) owner) _ _
              (created-IsDead (new_token library actor r id lookup secret)
                (plaintext_of r.token_prefix lookup secret))
              dead

-- The calls of a history, on any role tables.
pub data Call : Type 0 where
  issue : Db → ℕ → Request → ℕ → List Read → List Read → ℕ → Call
  revoke : Db → ℕ → ℕ → ℕ → ℕ → Call

module _ (library : Library) where
  unfoldable pub run : List Call → List SellerApiToken → List SellerApiToken
  unfolding issue_api_token revoke_api_token
  run [] ts = ts
  run (issue db actor r id reads reads' now ∷ cs) ts =
      run cs (issue_api_token library db actor r id reads reads' now ts).1
  run (revoke db seller_id actor id now ∷ cs) ts =
      run cs (revoke_api_token db seller_id actor id now ts).1

  run-IsDead :
      (k : ℕ) (cs : List Call) (ts : List SellerApiToken) → IsDead k ts → IsDead k (run cs ts)
  unfolding run
  run-IsDead k [] ts dead = dead
  run-IsDead k (issue db actor r id reads reads' now ∷ cs) ts dead =
      run-IsDead k cs _ (issue_api_token-IsDead k library db actor r id ts dead reads reads' now)
  run-IsDead k (revoke db seller_id actor id now ∷ cs) ts dead =
      run-IsDead k cs _ (revoke_api_token-IsDead k id actor now ts dead db seller_id)

  -- What is accepted is the row that was found, and it is not revoked.
  Accepts : Option SellerApiToken → Result TokenError SellerApiToken → Type 0
  Accepts o (err e) = Unit {0}
  Accepts o (ok t) = (o ≡ some t) × (is_some t.revoked_at ≡ false)

  check_found-Accepts :
      (secret : Text) (now : ℕ) (o : Option SellerApiToken)
      → Accepts o (check_found library secret now o)
  unfolding check_found Accepts
  check_found-Accepts secret now none = tt
  check_found-Accepts secret now (some t) =
      either (Accepts (some t)) (same_text (library.sha256 secret) t.token_hash) _ _
        (elim (Bool-cases (is_some t.revoked_at)) [
          | inl c ↦
              subst (λ b. Accepts (some t) (if b then err token_revoked else live_answer)) (sym c)
                tt
          | inr c ↦
              subst (λ b. Accepts (some t) (if b then err token_revoked else live_answer)) (sym c)
                (either (Accepts (some t)) (is_expired library now t.expires_at) _ _ tt (refl, c))
        ])
        tt
    where
      live_answer : Result TokenError SellerApiToken
      live_answer = if is_expired library now t.expires_at then err token_expired else ok t

  found-live :
      (prefix lookup secret : Text) (now : ℕ) (ts : List SellerApiToken) (t : SellerApiToken)
      → lookup_api_token library prefix lookup secret now ts ≡ ok t
      → (get_by_lookup prefix lookup ts ≡ some t) × (is_some t.revoked_at ≡ false)
  unfolding lookup_api_token Accepts
  found-live prefix lookup secret now ts t h =
      let found = get_by_lookup prefix lookup ts in
      subst (Accepts found) h (
        either (Accepts found) (is_empty prefix || is_empty lookup || is_empty secret)
          (err invalid_format) (check_found library secret now found) tt
          (check_found-Accepts secret now found))

  IsDead-refused :
      (k : ℕ) (prefix lookup secret : Text) (now : ℕ) (ts : List SellerApiToken)
      (t : SellerApiToken)
      → IsDead k ts
      → lookup_api_token library prefix lookup secret now ts ≡ ok t
      → (t.id == k) ≡ false
  unfolding IsDead get_by_lookup
  IsDead-refused k prefix lookup secret now ts t dead h =
      let is_live = found-live prefix lookup secret now ts t h in
      elim (Bool-cases (t.id == k)) [
        | inl c ↦
            let seen =
              count-found (live k) (has_lookup prefix lookup) ts t is_live.0
                (ground (arith, is_live.1)) in
            let none_live = dead.1 in ground arith
        | inr c ↦ c
      ]

  -- After a revocation is answered without an error, no token with this id is accepted, whatever
  -- tokens are issued and revoked in between.
  pub revoke-refused :
      (db : Db) (seller_id actor id now : ℕ) (ts : List SellerApiToken) (a : Text × Text)
      (cs : List Call) (prefix lookup secret : Text) (later : ℕ) (t : SellerApiToken)
      → (revoke_api_token db seller_id actor id now ts).0 ≡ ok a
      → lookup_api_token library prefix lookup secret later
          (run cs (revoke_api_token db seller_id actor id now ts).1)
        ≡ ok t
      → (t.id == id) ≡ false
  unfolding Dies
  revoke-refused db seller_id actor id now ts a cs prefix lookup secret later t h =
      let left = (revoke_api_token db seller_id actor id now ts).1 in
      IsDead-refused id prefix lookup secret later (run cs left) t (
        run-IsDead id cs left
          (subst (λ x. Dies id (x, left)) h (revoke_api_token-Dies id actor now ts db seller_id)))
