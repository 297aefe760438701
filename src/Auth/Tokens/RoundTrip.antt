-- ===== src/Auth/Tokens/RoundTrip.antt =====
-- A token from its issue to a request that carries it
-- (backend/services/auth/internal/app/credential.go).
use ec_test.Base.{
  ℕ, ◌≡◌, refl, sym, ap, subst, ◌∙◌, Bool, true, false, ◌&&◌, ◌||◌, Option, none, some, List, [],
  ◌∷◌, ◌==◌, if◌then◌else◌, either, arith,
}
use ec_test.Base.Tx.{Result, ok, err}
use ec_test.Base.Rows.{find_by}
use ec_test.Auth.Domain.{owner}
use ec_test.Auth.Store.{Db, is_some, check_seller_role}
use ec_test.Auth.Team.{ranks}
use ec_test.Auth.Tokens.Text.{
  Text, Read, is_empty, generate_base62, lookup_chars, secret_chars, plaintext_of, parse_api_token,
  parse-generated, generated-full,
}
use ec_test.Auth.Tokens.Store.{
  SellerApiToken, same_text, get_by_lookup, create_token, fits_token, has_lookup,
}
use ec_test.Auth.Tokens.Service.{
  TokenError, Library, Request, created, valid_input, new_token, issue_generated, issue_api_token,
  lookup_api_token, check_found, is_expired, token_not_found, token_revoked, token_expired,
  invalid_format,
}

same_text_refl : (t : Text) → same_text t t ≡ true
unfolding same_text
same_text_refl [] = refl
same_text_refl (c ∷ t) = ground (arith, same_text_refl t)

found_first :
    (t : SellerApiToken) (ts : List SellerApiToken)
    → get_by_lookup t.token_prefix t.token_lookup (t ∷ ts) ≡ some t
unfolding get_by_lookup find_by
found_first t ts =
    ap
      (λ b.
        if b && same_text t.token_lookup t.token_lookup
        then some t
        else find_by (has_lookup t.token_prefix t.token_lookup) ts)
      (same_text_refl t.token_prefix)
    ∙ ap (λ b. if b then some t else find_by (has_lookup t.token_prefix t.token_lookup) ts)
        (same_text_refl t.token_lookup)

-- What an answer with a token says of the tables.
record IsIssued (library : Library) (prefix : Text) (t : SellerApiToken) (plaintext : Text)
    (ts : List SellerApiToken) : Type 0 where
  lookup : Text
  secret : Text
  is_parsed : parse_api_token plaintext prefix ≡ some (lookup, secret)
  lookup_full : is_empty lookup ≡ false
  secret_full : is_empty secret ≡ false
  is_found : get_by_lookup prefix lookup ts ≡ some t
  has_hash : t.token_hash ≡ library.sha256 secret
  is_live : t.revoked_at ≡ none

abbrev AnswersIssued :
    Library → Text → Result TokenError (SellerApiToken × Text) × List SellerApiToken → Type 0
AnswersIssued library prefix (ok (t, plaintext), ts) = IsIssued library prefix t plaintext ts
AnswersIssued library prefix (err e, ts) = Unit {0}

module _ (library : Library) (db : Db) (actor : ℕ) (r : Request) (id : ℕ) where
  created-AnswersIssued :
      (reads reads' : List Read) (lookup secret : Text) (ts : List SellerApiToken)
      → is_empty r.token_prefix ≡ false
      → generate_base62 lookup_chars reads ≡ some lookup
      → generate_base62 secret_chars reads' ≡ some secret
      → AnswersIssued library r.token_prefix (
          created library
            (new_token library actor r id lookup secret)
            (plaintext_of r.token_prefix lookup secret)
            ts
            (create_token (new_token library actor r id lookup secret) ts))
  unfolding create_token new_token
  created-AnswersIssued reads reads' lookup secret ts p l s =
      let fresh : IsIssued library r.token_prefix (new_token library actor r id lookup secret)
          (plaintext_of r.token_prefix lookup secret)
          (new_token library actor r id lookup secret ∷ ts) =
        record {
          lookup = lookup;
          secret = secret;
          is_parsed = parse-generated r.token_prefix reads reads' lookup secret p l s;
          lookup_full = generated-full 11 reads lookup l;
          secret_full = generated-full 42 reads' secret s;
          is_found = found_first (new_token library actor r id lookup secret) ts;
          has_hash = refl;
          is_live = refl;
        } in
      elim (fits_token (new_token library actor r id lookup secret) ts)
        as (λ b. AnswersIssued library r.token_prefix (
          created library (new_token library actor r id lookup secret)
            (plaintext_of r.token_prefix lookup secret) ts
            (if b then some (new_token library actor r id lookup secret ∷ ts) else none))) [
              | true ↦ fresh
              | false ↦ tt
            ]

  issue_generated-AnswersIssued :
      (reads reads' : List Read) (lookup secret : Option Text) (ts : List SellerApiToken)
      → is_empty r.token_prefix ≡ false
      → generate_base62 lookup_chars reads ≡ lookup
      → generate_base62 secret_chars reads' ≡ secret
      → AnswersIssued library r.token_prefix
          (issue_generated library db actor r id lookup secret ts)
  unfolding issue_generated
  issue_generated-AnswersIssued reads reads' none secret ts p l s = tt
  issue_generated-AnswersIssued reads reads' (some lookup) none ts p l s = tt
  issue_generated-AnswersIssued reads reads' (some lookup) (some secret) ts p l s =
      either (AnswersIssued library r.token_prefix)
        (ranks (check_seller_role r.seller_id actor db) owner) _ _
        (created-AnswersIssued reads reads' lookup secret ts p l s) tt

  issue_api_token-AnswersIssued :
      (reads reads' : List Read) (now : ℕ) (ts : List SellerApiToken)
      → is_empty r.token_prefix ≡ false
      → AnswersIssued library r.token_prefix
          (issue_api_token library db actor r id reads reads' now ts)
  unfolding issue_api_token
  issue_api_token-AnswersIssued reads reads' now ts p =
      either (AnswersIssued library r.token_prefix)
        (valid_input (library.trim_space r.name) r.scopes r.rate_limit_rps r.rate_limit_burst
          r.expires_at now)
        _ _
        (either (AnswersIssued library r.token_prefix) (actor == 0) _ _ tt (
          issue_generated-AnswersIssued reads reads' (generate_base62 lookup_chars reads)
            (generate_base62 secret_chars reads') ts p refl refl))
        tt

found-accepted :
    (library : Library) (secret : Text) (now : ℕ) (t : SellerApiToken)
    → t.token_hash ≡ library.sha256 secret
    → t.revoked_at ≡ none
    → is_expired library now t.expires_at ≡ false
    → check_found library secret now (some t) ≡ ok t
unfolding check_found
found-accepted library secret now t h l e =
    ap
      (λ b.
        if b
        then (if is_some t.revoked_at
            then err token_revoked
            else if is_expired library now t.expires_at
            then err token_expired
            else ok t)
        else err token_not_found)
      (subst (λ x. same_text (library.sha256 secret) x ≡ true) (sym h)
        (same_text_refl (library.sha256 secret)))
    ∙ ap
        (λ o.
          if is_some o
          then err token_revoked
          else if is_expired library now t.expires_at
          then err token_expired
          else ok t)
        l
    ∙ ap (λ b. if b then err token_expired else ok t) e

-- The plaintext that is answered when a token is issued is parsed into a lookup and a secret, and
-- with these the token is found until it expires, whatever the hash is that is used. The configured
-- prefix is not empty.
pub issue-lookup :
    (library : Library) (db : Db) (actor : ℕ) (r : Request) (id : ℕ) (reads reads' : List Read)
    (now later : ℕ) (ts : List SellerApiToken) (t : SellerApiToken) (plaintext : Text)
    → is_empty r.token_prefix ≡ false
    → (issue_api_token library db actor r id reads reads' now ts).0 ≡ ok (t, plaintext)
    → is_expired library later t.expires_at ≡ false
    → (lookup : Text) × (secret : Text) × (parse_api_token plaintext r.token_prefix
        ≡ some (lookup, secret))
      × (lookup_api_token library r.token_prefix lookup secret later
            (issue_api_token library db actor r id reads reads' now ts).1
          ≡ ok t)
unfolding lookup_api_token
issue-lookup library db actor r id reads reads' now later ts t plaintext p a e =
    let issued : IsIssued library r.token_prefix t plaintext
        (issue_api_token library db actor r id reads reads' now ts).1 =
      subst
        (λ x.
          AnswersIssued library r.token_prefix
            (x, (issue_api_token library db actor r id reads reads' now ts).1))
        a (issue_api_token-AnswersIssued library db actor r id reads reads' now ts p) in
    (
      issued.lookup,
      issued.secret,
      issued.is_parsed,
      accepted (is_empty r.token_prefix) (is_empty issued.lookup) (is_empty issued.secret)
            (err invalid_format) _ p issued.lookup_full issued.secret_full
          ∙ ap (check_found library issued.secret later) issued.is_found
          ∙ found-accepted library issued.secret later t issued.has_hash issued.is_live e,
    )
  where
    accepted :
        (b c d : Bool) (x y : Result TokenError SellerApiToken)
        → b ≡ false
        → c ≡ false
        → d ≡ false
        → (if b || c || d then x else y) ≡ y
    accepted b c d x y h k l = ground (arith, h, k, l)
