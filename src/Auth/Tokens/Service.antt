-- ===== src/Auth/Tokens/Service.antt =====
-- Issuing, revoking and looking up API tokens: backend/services/auth/internal/app/credential.go.
use ec_test.Base.{
  ℕ, Bool, true, false, not, ◌&&◌, ◌||◌, Option, none, some, List, [], ◌∷◌, ◌==◌, leb, ltb, length,
  if◌then◌else◌,
}
use ec_test.Base.Int.{ℤ, pos, leb_ℤ}
use ec_test.Base.Tx.{Result, ok, err}
use ec_test.Base.Rows.{find_by, has}
use ec_test.Auth.Domain.{owner}
use ec_test.Auth.Store.{Db, is_some, check_seller_role}
use ec_test.Auth.Team.{ranks}
use ec_test.Auth.Tokens.Text.{
  Text, Read, is_empty, generate_base62, lookup_chars, secret_chars, plaintext_of,
}
use ec_test.Auth.Tokens.Store.{
  ApiTokenScope, SellerApiToken, all_valid, create_token, get_by_lookup, is_nil, revoke_token,
  same_text, scope_code,
}

-- The answers with their codes, and the sentinels.
pub data TokenError : Type 0 where
  bad_request unauthorized forbidden not_found internal : TokenError
  token_not_found token_revoked token_expired invalid_format scope_not_granted : TokenError
  insufficient_role statement_failed : TokenError

-- `mapAPITokenError`
abbrev pub map_api_token_error : TokenError → TokenError
map_api_token_error bad_request = bad_request
map_api_token_error unauthorized = unauthorized
map_api_token_error forbidden = forbidden
map_api_token_error not_found = not_found
map_api_token_error token_not_found = not_found
map_api_token_error token_revoked = forbidden
map_api_token_error token_expired = forbidden
map_api_token_error invalid_format = bad_request
map_api_token_error scope_not_granted = forbidden
map_api_token_error insufficient_role = forbidden
map_api_token_error _ = internal

unfoldable pub has_scope : ApiTokenScope → List ApiTokenScope → Bool
has_scope s [] = false
has_scope s (t ∷ ts) = scope_code t == scope_code s || has_scope s ts

-- The scopes without those that came before.
unfoldable pub clean_scopes : List ApiTokenScope → List ApiTokenScope → List ApiTokenScope
unfolding has_scope
clean_scopes seen [] = []
clean_scopes seen (s ∷ ss) = elim (has_scope s seen) [
  | true ↦ clean_scopes seen ss
  | false ↦ s ∷ clean_scopes (s ∷ seen) ss
]

abbrev pub is_positive : Option ℤ → Bool
is_positive none = true
is_positive (some n) = not (leb_ℤ n (pos 0))

abbrev pub is_after : ℕ → Option ℕ → Bool
is_after now none = true
is_after now (some t) = ltb now t

-- The tests of the input, with the name trimmed.
unfoldable pub valid_input : Text → List ApiTokenScope → Option ℤ → Option ℤ → Option ℕ → ℕ → Bool
unfolding all_valid
valid_input name scopes rps burst expires_at now =
    not (is_empty name)
    && leb (length name) 120
    && not (is_nil scopes)
    && all_valid scopes
    && is_after now expires_at
    && is_positive rps
    && is_positive burst

-- What the standard library does: trimming, and the hash of a secret.
pub record Library : Type 0 where
  pub trim_space : Text → Text
  pub sha256 : Text → Text

pub record Request : Type 0 where
  pub seller_id : ℕ
  pub name : Text
  pub scopes : List ApiTokenScope
  pub rate_limit_rps : Option ℤ
  pub rate_limit_burst : Option ℤ
  pub expires_at : Option ℕ
  pub token_prefix : Text

module _ (library : Library) where
  unfoldable pub new_token : ℕ → Request → ℕ → Text → Text → SellerApiToken
  unfolding clean_scopes
  new_token actor r id lookup secret = record {
    id = id;
    seller_id = r.seller_id;
    name = library.trim_space r.name;
    token_prefix = r.token_prefix;
    token_lookup = lookup;
    token_hash = library.sha256 secret;
    scopes = clean_scopes [] r.scopes;
    rate_limit_rps = r.rate_limit_rps;
    rate_limit_burst = r.rate_limit_burst;
    issued_by_auth0_user_id = actor;
    expires_at = r.expires_at;
    revoked_at = none;
    revoked_by_auth0_user_id = 0;
  }

  abbrev pub created :
      SellerApiToken
      → Text
      → List SellerApiToken
      → Option (List SellerApiToken)
      → Result TokenError (SellerApiToken × Text) × List SellerApiToken
  created t plaintext ts none = (err (map_api_token_error statement_failed), ts)
  created t plaintext ts (some ts') = (ok (t, plaintext), ts')

  -- `IssueAPIToken`, from the texts of the token: the transaction.
  unfoldable pub issue_generated :
      Db
      → ℕ
      → Request
      → ℕ
      → Option Text
      → Option Text
      → List SellerApiToken
      → Result TokenError (SellerApiToken × Text) × List SellerApiToken
  unfolding create_token check_seller_role new_token
  issue_generated db actor r id (some lookup) (some secret) ts =
      if ranks (check_seller_role r.seller_id actor db) owner
      then created (new_token actor r id lookup secret) (plaintext_of r.token_prefix lookup secret)
          ts (create_token (new_token actor r id lookup secret) ts)
      else (err (map_api_token_error insufficient_role), ts)
  issue_generated db actor r id _ _ ts = (err internal, ts)

  -- `IssueAPIToken`, with a fresh uuid and random reads. A caller without identity is 0.
  unfoldable pub issue_api_token :
      Db
      → ℕ
      → Request
      → ℕ
      → List Read
      → List Read
      → ℕ
      → List SellerApiToken
      → Result TokenError (SellerApiToken × Text) × List SellerApiToken
  unfolding valid_input issue_generated generate_base62
  issue_api_token db actor r id reads reads' now ts =
      if valid_input (library.trim_space r.name) r.scopes r.rate_limit_rps r.rate_limit_burst
        r.expires_at now
      then (if actor == 0
          then (err unauthorized, ts)
          else issue_generated db actor r id (generate_base62 lookup_chars reads)
              (generate_base62 secret_chars reads') ts)
      else (err bad_request, ts)

  abbrev pub is_expired : ℕ → Option ℕ → Bool
  is_expired now none = false
  is_expired now (some t) = leb t now

  unfoldable pub check_found : Text → ℕ → Option SellerApiToken → Result TokenError SellerApiToken
  unfolding same_text
  check_found secret now none = err token_not_found
  check_found secret now (some t) =
      if same_text (library.sha256 secret) t.token_hash
      then (if is_some t.revoked_at
          then err token_revoked
          else if is_expired now t.expires_at
          then err token_expired
          else ok t)
      else err token_not_found

  -- `LookupAPIToken`, but for the stamp of the last use.
  unfoldable pub lookup_api_token :
      Text → Text → Text → ℕ → List SellerApiToken → Result TokenError SellerApiToken
  unfolding get_by_lookup check_found
  lookup_api_token prefix lookup secret now ts =
      if is_empty prefix || is_empty lookup || is_empty secret
      then err invalid_format
      else check_found secret now (get_by_lookup prefix lookup ts)

abbrev pub owned_by : ℕ → Option SellerApiToken → Option SellerApiToken
owned_by seller_id none = none
owned_by seller_id (some t) = if t.seller_id == seller_id then some t else none

-- `GetAPIToken`
abbrev pub get_api_token : ℕ → ℕ → List SellerApiToken → Result TokenError SellerApiToken
get_api_token seller_id id ts = elim (owned_by seller_id (find_by (has (λ x. x.id) id) ts)) [
  | none ↦ err not_found
  | some t ↦ ok t
]

abbrev pub revoked :
    SellerApiToken
    → List SellerApiToken
    → Option (List SellerApiToken)
    → Result TokenError (Text × Text) × List SellerApiToken
revoked t ts none = (err (map_api_token_error token_not_found), ts)
revoked t ts (some ts') = (ok (t.token_prefix, t.token_lookup), ts')

unfoldable pub revoke_found :
    Db
    → ℕ
    → ℕ
    → ℕ
    → ℕ
    → List SellerApiToken
    → Option SellerApiToken
    → Result TokenError (Text × Text) × List SellerApiToken
unfolding revoke_token check_seller_role
revoke_found db seller_id actor id now ts none = (err not_found, ts)
revoke_found db seller_id actor id now ts (some t) =
    if ranks (check_seller_role seller_id actor db) owner
    then revoked t ts (revoke_token id actor now ts)
    else (err (map_api_token_error insufficient_role), ts)

-- `RevokeAPIToken`
unfoldable pub revoke_api_token :
    Db → ℕ → ℕ → ℕ → ℕ → List SellerApiToken → Result TokenError (Text × Text) × List SellerApiToken
unfolding revoke_found
revoke_api_token db seller_id actor id now ts =
    if actor == 0
    then (err unauthorized, ts)
    else revoke_found db seller_id actor id now ts
        (owned_by seller_id (find_by (has (λ x. x.id) id) ts))
