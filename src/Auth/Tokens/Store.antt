-- ===== src/Auth/Tokens/Store.antt =====
-- The table of API tokens and its statements: backend/services/auth/internal/domain/api_token.go and
-- adapter/postgres/api_token_repo.go, on the table of infra/db/migrations/auth.
use ec_test.Base.{
  ℕ, ◌+◌, Bool, true, false, not, ◌&&◌, Option, none, some, List, [], ◌∷◌, ◌==◌, leb, ltb, length,
  if◌then◌else◌,
}
use ec_test.Base.Int.{ℤ}
use ec_test.Base.Rows.{find_by, update_by, has}
use ec_test.Auth.Store.{is_some}
use ec_test.Auth.Tokens.Text.{Text}

pub data ApiTokenScope : Type 0 where
  products_read products_write orders_read orders_write : ApiTokenScope
  inventory_read inventory_write : ApiTokenScope
  other_scope : ℕ → ApiTokenScope

abbrev pub scope_code : ApiTokenScope → ℕ
scope_code products_read = 0
scope_code products_write = 1
scope_code orders_read = 2
scope_code orders_write = 3
scope_code inventory_read = 4
scope_code inventory_write = 5
scope_code (other_scope n) = 6 + n

-- `APITokenScope.Valid`; an owner may grant all valid scopes (`ScopesForSellerRole`).
abbrev pub valid_scope : ApiTokenScope → Bool
valid_scope s = ltb (scope_code s) 6

pub record SellerApiToken : Type 0 where
  pub id : ℕ
  pub seller_id : ℕ
  pub name : Text
  pub token_prefix : Text
  pub token_lookup : Text
  pub token_hash : Text
  pub scopes : List ApiTokenScope
  pub rate_limit_rps : Option ℤ
  pub rate_limit_burst : Option ℤ
  pub issued_by_auth0_user_id : ℕ
  pub expires_at : Option ℕ
  pub revoked_at : Option ℕ
  pub revoked_by_auth0_user_id : ℕ

unfoldable pub same_text : Text → Text → Bool
same_text [] [] = true
same_text [] (d ∷ t) = false
same_text (c ∷ s) [] = false
same_text (c ∷ s) (d ∷ t) = let rest = same_text s t in c == d && rest

-- The unique index.
abbrev pub has_lookup : Text → Text → SellerApiToken → Bool
has_lookup prefix lookup t = same_text t.token_prefix prefix && same_text t.token_lookup lookup

-- `APITokenRepository.GetByLookup`
unfoldable pub get_by_lookup : Text → Text → List SellerApiToken → Option SellerApiToken
unfolding find_by same_text
get_by_lookup prefix lookup ts = find_by (has_lookup prefix lookup) ts

unfoldable pub all_valid : List ApiTokenScope → Bool
all_valid [] = true
all_valid (s ∷ ss) = valid_scope s && all_valid ss

abbrev pub is_nil : List ApiTokenScope → Bool
is_nil [] = true
is_nil (s ∷ ss) = false

-- The constraints of the table on a new row.
abbrev pub fits_token : SellerApiToken → List SellerApiToken → Bool
fits_token t ts =
    not (is_some (find_by (has (λ x. x.id) t.id) ts))
    && not (is_some (get_by_lookup t.token_prefix t.token_lookup ts))
    && leb (length t.token_prefix) 16
    && leb (length t.token_lookup) 16
    && not (is_nil t.scopes)
    && all_valid t.scopes

-- `APITokenRepository.Create`
unfoldable pub create_token : SellerApiToken → List SellerApiToken → Option (List SellerApiToken)
unfolding get_by_lookup all_valid
create_token t ts = if fits_token t ts then some (t ∷ ts) else none

abbrev pub revoked_by : ℕ → ℕ → SellerApiToken → SellerApiToken
revoked_by actor now t =
    if is_some t.revoked_at
    then t
    else record t { revoked_at = some now; revoked_by_auth0_user_id = actor }

-- `APITokenRepository.Revoke`; `none` is where there is no such row.
unfoldable pub revoke_token : ℕ → ℕ → ℕ → List SellerApiToken → Option (List SellerApiToken)
revoke_token id actor now ts =
    if is_some (find_by (has (λ x. x.id) id) ts)
    then some (update_by (has (λ x. x.id) id) (revoked_by actor now) ts)
    else none
