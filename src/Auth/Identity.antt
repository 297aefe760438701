-- ===== src/Auth/Identity.antt =====
-- Sellers and their first owner (backend/services/auth/internal/app/identity.go).
use ec_test.Base.{ℕ, Bool, true, false, Option, none, some, ◌==◌, if◌then◌else◌}
use ec_test.Base.Tx.{Result, ok, err, run_tx, ◌>>◌}
use ec_test.Auth.Domain.{owner, Seller, SellerStatus, seller_pending, seller_approved}
use ec_test.Auth.Store.{
  Db, M, Error, bad_request, unauthorized, conflict, not_found, is_some, create_seller_row,
  create_seller_user, get_seller_by_id, get_seller_by_slug, update_seller_status, with_status,
}
use ec_test.Auth.Team.{map_answer, new_user}
use ec_test.Auth.Admins.{all_internal}

-- The transaction of `CreateSeller`: the seller and its owner, with fresh uuids.
unfoldable pub create_seller_tx : ℕ → Seller → ℕ → M (Unit {0})
unfolding create_seller_row create_seller_user
create_seller_tx caller seller user_id = do
  create_seller_row (with_status seller_pending seller)
  create_seller_user (new_user seller.id caller user_id caller owner)

unfoldable pub create_seller : ℕ → Seller → ℕ → Db → Result Error (Unit {0}) × Db
unfolding create_seller_tx
create_seller caller seller user_id db =
    if caller == 0
    then (err unauthorized, db)
    else if is_some (get_seller_by_slug seller.slug db)
    then (err conflict, db)
    else map_answer all_internal (run_tx (create_seller_tx caller seller user_id) db)

abbrev pub is_pending_seller : SellerStatus → Bool
is_pending_seller seller_pending = true
is_pending_seller _ = false

-- `GetSeller`
abbrev pub get_seller : ℕ → Db → Result Error Seller
get_seller id db = elim (get_seller_by_id id db) [ none ↦ err not_found | some s ↦ ok s ]

-- `ApproveSeller`
abbrev pub approve_found : ℕ → Option Seller → Db → Result Error (Unit {0}) × Db
approve_found id none db = (err not_found, db)
approve_found id (some s) db =
    if is_pending_seller s.status
    then map_answer all_internal (run_tx (update_seller_status id seller_approved) db)
    else (err bad_request, db)

unfoldable pub approve_seller : ℕ → Db → Result Error (Unit {0}) × Db
unfolding update_seller_status
approve_seller id db = approve_found id (get_seller_by_id id db) db
