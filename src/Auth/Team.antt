-- ===== src/Auth/Team.antt =====
-- The team of a seller: the operations on seller users of
-- backend/services/auth/internal/app/rbac.go.
use ec_test.Base.{ℕ, Bool, not, ◌&&◌, ◌||◌, Option, none, some, ◌==◌, leb, if◌then◌else◌}
use ec_test.Base.Tx.{Result, ok, err, pure, throw, guard, run_tx, ◌>>◌, ◌>>=◌}
use ec_test.Auth.Domain.{
  RoleName, no_role, owner, admin, is_role, seller_at_least, seller_valid, SellerUser,
  RbacAuditEntry, RbacAction, action_grant, action_revoke, action_role_change,
  action_transfer_ownership, scope_seller_user,
}
use ec_test.Auth.Store.{
  Db, M, Error, bad_request, unauthorized, conflict, not_found, forbidden, internal, last_owner,
  last_super_admin, self_role_change, insufficient_role, target_not_found, is_some,
  create_seller_user, get_user_by_id, get_user_by_auth0_id, check_seller_role, count_seller_role,
  update_user_role, delete_user, append_audit,
}

-- `mapRBACError`
abbrev pub map_rbac_error : Error → Error
map_rbac_error bad_request = bad_request
map_rbac_error unauthorized = unauthorized
map_rbac_error conflict = conflict
map_rbac_error forbidden = forbidden
map_rbac_error not_found = not_found
map_rbac_error last_owner = conflict
map_rbac_error last_super_admin = conflict
map_rbac_error self_role_change = forbidden
map_rbac_error insufficient_role = forbidden
map_rbac_error target_not_found = not_found
map_rbac_error _ = internal

-- The answer of a call, with its error renamed.
abbrev pub map_answer : {A : Type 0} → (Error → Error) → Result Error A × Db → Result Error A × Db
map_answer f (ok a, db) = (ok a, db)
map_answer f (err e, db) = (err (f e), db)

abbrev pub rbac_call : {A : Type 0} → M A → Db → Result Error A × Db
rbac_call m db = map_answer map_rbac_error (run_tx m db)

-- `LookupSellerRole`
abbrev pub lookup_seller_role : ℕ → ℕ → Db → RoleName
lookup_seller_role = check_seller_role

-- `requireSellerRoleAtLeast`.
abbrev pub ranks : RoleName → RoleName → Bool
ranks role min = not (is_role role no_role) && seller_at_least role min

unfoldable pub require_seller_role : ℕ → ℕ → RoleName → M (Unit {0})
unfolding check_seller_role
require_seller_role seller_id actor min db =
    guard (ranks (check_seller_role seller_id actor db) min) insufficient_role db

module _ (seller_id actor : ℕ) where
  abbrev pub seller_entry : ℕ → RbacAction → RoleName → RoleName → RbacAuditEntry
  seller_entry target action before after = record {
    actor_auth0_user_id = actor;
    target_auth0_user_id = target;
    scope = scope_seller_user;
    scope_id = some seller_id;
    action = action;
    before_role = before;
    after_role = after;
  }

  abbrev pub new_user : ℕ → ℕ → RoleName → SellerUser
  new_user id user role = record {
    id = id;
    seller_id = seller_id;
    auth0_user_id = user;
    role = role;
  }

  -- The transaction of `AddSellerUser`, with a fresh uuid.
  unfoldable pub add_seller_user_tx : ℕ → RoleName → ℕ → M SellerUser
  unfolding require_seller_role create_seller_user
  add_seller_user_tx user role id = do
    require_seller_role seller_id actor owner
    existing ← get_user_by_auth0_id seller_id user
    guard (not (is_some existing)) conflict
    create_seller_user (new_user id user role)
    append_audit (seller_entry user action_grant no_role role)
    pure (new_user id user role)

  -- `AddSellerUser`. A caller whose identity is missing is 0.
  unfoldable pub add_seller_user : ℕ → RoleName → ℕ → Db → Result Error SellerUser × Db
  unfolding add_seller_user_tx
  add_seller_user user role id db =
      if not (seller_valid role) || is_role role owner || user == 0
      then (err bad_request, db)
      else if actor == 0
      then (err unauthorized, db)
      else rbac_call (add_seller_user_tx user role id) db

  -- The target of a change: a user of this seller.
  abbrev pub target_of : Option SellerUser → M SellerUser
  target_of none = throw target_not_found
  target_of (some target) =
      if target.seller_id == seller_id then pure target else throw target_not_found

  -- The safeguard of the last owner.
  unfoldable pub guard_last_owner : SellerUser → M (Unit {0})
  unfolding count_seller_role
  guard_last_owner target db =
      guard (not (is_role target.role owner && leb (count_seller_role seller_id owner db) 1))
        last_owner db

  -- `UpdateSellerUserRole`, from the lookup of the target.
  abbrev pub change_role : ℕ → RoleName → SellerUser → M (Unit {0})
  change_role target_id new_role target =
      if target.auth0_user_id == actor
      then throw self_role_change
      else if is_role target.role new_role
      then pure tt
      else do
        guard_last_owner target
        update_user_role target_id new_role
        append_audit (seller_entry target.auth0_user_id action_role_change target.role new_role)

  unfoldable pub update_seller_user_role_tx : ℕ → RoleName → M (Unit {0})
  unfolding require_seller_role guard_last_owner update_user_role
  update_seller_user_role_tx target_id new_role = do
    require_seller_role seller_id actor owner
    found ← get_user_by_id target_id
    target ← target_of found
    change_role target_id new_role target

  unfoldable pub update_seller_user_role : ℕ → RoleName → Db → Result Error (Unit {0}) × Db
  unfolding update_seller_user_role_tx
  update_seller_user_role target_id new_role db =
      if not (seller_valid new_role) || is_role new_role owner
      then (err bad_request, db)
      else if actor == 0
      then (err unauthorized, db)
      else rbac_call (update_seller_user_role_tx target_id new_role) db

  -- `RemoveSellerUser`
  abbrev pub remove_target : ℕ → SellerUser → M (Unit {0})
  remove_target target_id target =
      if target.auth0_user_id == actor then throw self_role_change else do
        guard_last_owner target
        delete_user target_id
        append_audit (seller_entry target.auth0_user_id action_revoke target.role no_role)

  unfoldable pub remove_seller_user_tx : ℕ → M (Unit {0})
  unfolding require_seller_role guard_last_owner delete_user
  remove_seller_user_tx target_id = do
    require_seller_role seller_id actor owner
    found ← get_user_by_id target_id
    target ← target_of found
    remove_target target_id target

  unfoldable pub remove_seller_user : ℕ → Db → Result Error (Unit {0}) × Db
  unfolding remove_seller_user_tx
  remove_seller_user target_id db =
      if actor == 0 then (err unauthorized, db) else rbac_call (remove_seller_user_tx target_id) db

  -- `TransferSellerOwnership`
  abbrev pub require_owner : Option SellerUser → M SellerUser
  require_owner none = throw insufficient_role
  require_owner (some su) = if is_role su.role owner then pure su else throw insufficient_role

  abbrev pub transfer_to : SellerUser → SellerUser → M (Unit {0})
  transfer_to current target = if target.id == current.id then throw self_role_change else do
    update_user_role current.id admin
    update_user_role target.id owner
    append_audit (seller_entry target.auth0_user_id action_transfer_ownership target.role owner)
    append_audit (seller_entry current.auth0_user_id action_role_change owner admin)

  unfoldable pub transfer_ownership_tx : ℕ → M (Unit {0})
  unfolding update_user_role
  transfer_ownership_tx new_owner_id = do
    me ← get_user_by_auth0_id seller_id actor
    current ← require_owner me
    found ← get_user_by_id new_owner_id
    target ← target_of found
    transfer_to current target

  unfoldable pub transfer_seller_ownership : ℕ → Db → Result Error (Unit {0}) × Db
  unfolding transfer_ownership_tx
  transfer_seller_ownership new_owner_id db =
      if actor == 0
      then (err unauthorized, db)
      else rbac_call (transfer_ownership_tx new_owner_id) db
