-- ===== src/Tests/TokenRuns.antt =====
-- Runs of the API tokens.
use ec_test.Base.{◌≡◌, refl, none, some, List, [], ◌∷◌, replicate, ◌++◌, ◌==◌, false}
use ec_test.Base.Tx.{ok}
use ec_test.Base.Rows.{find_by, update_by}
use ec_test.Auth.Domain.{owner}
use ec_test.Auth.Store.{Db, check_seller_role}
use ec_test.Auth.Tokens.Text.{Text, generate_base62, parse_api_token}
use ec_test.Auth.Tokens.Store.{
  SellerApiToken, same_text, revoke_token, products_read, orders_read, all_valid, create_token,
  get_by_lookup,
}
use ec_test.Auth.Tokens.Service.{
  Library, Request, check_found, revoke_found, revoke_api_token, issue_api_token, lookup_api_token,
  new_token, valid_input, issue_generated, clean_scopes, has_scope,
}
use ec_test.Auth.Tokens.Draws.{draws, draws-alphanumeric}
use ec_test.Auth.Tokens.RoundTrip.{issue-lookup}
use ec_test.Auth.Tokens.Revoked.{Call, issue, revoke, run, revoke-refused}

-- Bytes from the threshold on are skipped, and the buffer is filled again.
skipped :
    generate_base62 3 (some (255 ∷ 0 ∷ 250 ∷ 61 ∷ []) ∷ some (72 ∷ 1 ∷ []) ∷ [])
    ≡ some (48 ∷ 122 ∷ 65 ∷ [])
unfolding generate_base62
skipped = refl

draws-alphanumeric_example : draws 65 ≡ 4
draws-alphanumeric_example = draws-alphanumeric 65 refl

-- Texts are hashed to themselves.
abbrev plain : Library
plain = record { trim_space = λ t. t; sha256 = λ t. t }

abbrev shop : Db
shop = record {
  sellers = [];
  seller_users = record { id = 1; seller_id = 7; auth0_user_id = 3; role = owner } ∷ [];
  platform_admins = [];
  rbac_audit_log = [];
}

abbrev wanted : Request
wanted = record {
  seller_id = 7;
  name = 69 ∷ 82 ∷ [];
  scopes = products_read ∷ orders_read ∷ products_read ∷ [];
  rate_limit_rps = none;
  rate_limit_burst = none;
  expires_at = some 500;
  token_prefix = 115 ∷ 107 ∷ 95 ∷ [];
}

abbrev lookup : Text
lookup = replicate 12 49

abbrev secret : Text
secret = replicate 43 50

issue-lookup_example :
    (l : Text) × (s : Text) × (parse_api_token
        (115 ∷ 107 ∷ 95 ∷ lookup ++ 95 ∷ secret)
        (115 ∷ 107 ∷ 95 ∷ [])
      ≡ some (l, s))
    × (lookup_api_token plain
          (115 ∷ 107 ∷ 95 ∷ [])
          l
          s
          400
          (issue_api_token plain shop 3 wanted 20
            (some (replicate 12 1) ∷ [])
            (some (replicate 43 2) ∷ [])
            100
            []).1
        ≡ ok (new_token plain 3 wanted 20 lookup secret))
unfolding issue_api_token issue_generated generate_base62 create_token get_by_lookup find_by
    valid_input all_valid check_seller_role new_token clean_scopes has_scope
issue-lookup_example =
    issue-lookup plain shop 3 wanted 20 (some (replicate 12 1) ∷ []) (some (replicate 43 2) ∷ [])
      100 400 [] (new_token plain 3 wanted 20 lookup secret)
      (115 ∷ 107 ∷ 95 ∷ lookup ++ 95 ∷ secret) refl refl refl

abbrev lost : SellerApiToken
lost = new_token plain 3 wanted 21 (replicate 12 51) secret

abbrev kept : SellerApiToken
kept = new_token plain 3 wanted 20 lookup secret

-- A token is revoked, another is issued, and the revocation comes again.
abbrev later_calls : List Call
later_calls =
    issue shop 3 wanted 22 (some (replicate 12 4) ∷ []) (some (replicate 43 2) ∷ []) 200
    ∷ revoke shop 7 3 21 300
    ∷ []

revoke-refused_example : (20 == 21) ≡ false
unfolding revoke_api_token revoke_found revoke_token find_by update_by check_seller_role run
    issue_api_token issue_generated generate_base62 create_token get_by_lookup valid_input all_valid
    new_token clean_scopes has_scope lookup_api_token check_found same_text
revoke-refused_example =
    revoke-refused plain shop 7 3 21 150 (lost ∷ kept ∷ []) (115 ∷ 107 ∷ 95 ∷ [], replicate 12 51)
      later_calls (115 ∷ 107 ∷ 95 ∷ []) lookup secret 400 kept refl refl
