-- ===== src/Auth/History.antt =====
-- Any calls of the auth service on roles, one after another
-- (backend/services/auth/internal/app/rbac.go and identity.go).
use ec_test.Base.{
  ℕ, ◌≡◌, refl, Bool, true, false, not, ◌||◌, Option, none, some, List, [], ◌∷◌, ◌==◌, ltb,
  if◌then◌else◌, arith,
}
use ec_test.Base.Tx.{Result, ok, err, run_tx}
use ec_test.Base.Ensures.{Ensures, Ensures-err, Ensures-pure, Ensures-branch, run_tx-keeps}
use ec_test.Auth.Domain.{
  RoleName, owner, super_admin, is_role, Seller, seller_approved, seller_valid, platform_valid,
}
use ec_test.Base.Rows.{find_by, has}
use ec_test.Auth.Store.{Db, M, Error, has_slug, is_some, update_seller_status}
use ec_test.Auth.Team.{
  map_answer, map_rbac_error, add_seller_user, update_seller_user_role, remove_seller_user,
  transfer_seller_ownership, add_seller_user_tx, update_seller_user_role_tx, remove_seller_user_tx,
  transfer_ownership_tx,
}
use ec_test.Auth.Admins.{
  all_internal, count_platform_role, grant_platform_admin, update_platform_admin_role,
  revoke_platform_admin, bootstrap_super_admin, grant_platform_admin_tx,
  update_platform_admin_role_tx, revoke_platform_admin_tx, bootstrap_tx,
}
use ec_test.Auth.Identity.{
  create_seller, create_seller_tx, approve_seller, approve_found, is_pending_seller,
}
use ec_test.Auth.Edits.{nothing, approve, apply, Allowed, IsEdited}
use ec_test.Auth.Calls.{
  add_seller_user_tx-IsEdited, update_seller_user_role_tx-IsEdited, remove_seller_user_tx-IsEdited,
  transfer_ownership_tx-IsEdited,
}
use ec_test.Auth.AdminCalls.{
  grant_platform_admin_tx-IsEdited, update_platform_admin_role_tx-IsEdited,
  revoke_platform_admin_tx-IsEdited, bootstrap_tx-IsEdited, create_seller_tx-IsEdited,
}

-- One call, with the uuid that the service makes. The actor of a bootstrap is the system.
pub data Call : Type 0 where
  add : (seller actor user : ℕ) (role : RoleName) (id : ℕ) → Call
  change : (seller actor target_id : ℕ) (role : RoleName) → Call
  remove : (seller actor target_id : ℕ) → Call
  transfer : (seller actor target_id : ℕ) → Call
  grant : (actor user : ℕ) (role : RoleName) (id : ℕ) → Call
  regrade : (actor target_id : ℕ) (role : RoleName) → Call
  revoke : (actor target_id : ℕ) → Call
  bootstrap : (system user id : ℕ) → Call
  create : (caller : ℕ) (seller : Seller) (id : ℕ) → Call
  approve_pending : (id : ℕ) → Call

abbrev pub empty_db : Db
empty_db = record { sellers = []; seller_users = []; platform_admins = []; rbac_audit_log = [] }

-- The tables after a call.
unfoldable pub step : Db → Call → Db
unfolding add_seller_user update_seller_user_role remove_seller_user transfer_seller_ownership
    grant_platform_admin update_platform_admin_role revoke_platform_admin bootstrap_super_admin
    create_seller approve_seller
step db (add seller actor user role id) = (add_seller_user seller actor user role id db).1
step db (change seller actor target_id role) =
    (update_seller_user_role seller actor target_id role db).1
step db (remove seller actor target_id) = (remove_seller_user seller actor target_id db).1
step db (transfer seller actor target_id) = (transfer_seller_ownership seller actor target_id db).1
step db (grant actor user role id) = (grant_platform_admin actor user role id db).1
step db (regrade actor target_id role) = (update_platform_admin_role actor target_id role db).1
step db (revoke actor target_id) = (revoke_platform_admin actor target_id db).1
step db (bootstrap system user id) = (bootstrap_super_admin system user id db).1
step db (create caller seller id) = (create_seller caller seller id db).1
step db (approve_pending id) = (approve_seller id db).1

unfoldable pub run : Db → List Call → Db
unfolding step
run db [] = db
run db (c ∷ cs) = run (step db c) cs

pub unedited : (db : Db) → IsEdited db db
unfolding apply Allowed
unedited db = record { edit = nothing; is_allowed = tt; is_applied = refl }

or_false : (a b : Bool) → (a || b) ≡ false → b ≡ false
or_false a b h = ground (arith, h)

or_first : (a b : Bool) → (a || b) ≡ false → a ≡ false
or_first a b h = ground (arith, h)

module _ (db : Db) where
  -- A call that fails leaves the tables.
  answered :
      {A : Type 0} (f : Error → Error) (m : M A)
      → Ensures (λ _ db'. IsEdited db db') (m db)
      → IsEdited db (map_answer f (run_tx m db)).1
  answered {A = A} f m h = kept (run_tx m db) (run_tx-keeps (IsEdited db) db (m db) (unedited db) h)
    where
      kept : (x : Result Error A × Db) → IsEdited db x.1 → IsEdited db (map_answer f x).1
      kept (ok a, db') k = k
      kept (err e, db') k = k

  either :
      {A : Type 0} (c : Bool) (x y : Result Error A × Db)
      → (c ≡ true → IsEdited db x.1)
      → (c ≡ false → IsEdited db y.1)
      → IsEdited db (if c then x else y).1
  either true x y h g = h refl
  either false x y h g = g refl

  refused :
      {A : Type 0} (c : Bool) (e : Error) (x : Result Error A × Db)
      → (c ≡ false → IsEdited db x.1)
      → IsEdited db (if c then (err e, db) else x).1
  refused c e x h = either c (err e, db) x (λ _. unedited db) h

  approve_found-IsEdited : (id : ℕ) (o : Option Seller) → IsEdited db (approve_found id o db).1
  unfolding update_seller_status apply Allowed
  approve_found-IsEdited id none = unedited db
  approve_found-IsEdited id (some s) =
      either (is_pending_seller s.status) _ _
        (λ _. answered all_internal (update_seller_status id seller_approved) (
          Ensures-branch (is_some (find_by (has (λ x. x.id) id) db.sellers)) _ _
            (λ _. Ensures-pure _ _ record { edit = approve id; is_allowed = tt; is_applied = refl })
            (λ _. Ensures-err _)))
        (λ _. unedited db)

  -- Each call does nothing to the tables, or one of the edits of Auth/Edits, which only an owner of the
  -- seller, or a super_admin, may do, except the opening of a seller, its approval and the first
  -- super_admin.
  pub step-IsEdited : (c : Call) → IsEdited db (step db c)
  unfolding step add_seller_user update_seller_user_role remove_seller_user
      transfer_seller_ownership grant_platform_admin update_platform_admin_role
      revoke_platform_admin bootstrap_super_admin create_seller approve_seller
  step-IsEdited (add seller actor user role id) =
      refused (not (seller_valid role) || is_role role owner || user == 0) _ _ λ c.
        refused (actor == 0) _ _ λ _.
          answered map_rbac_error (add_seller_user_tx seller actor user role id) (
            add_seller_user_tx-IsEdited seller actor user role id db
              (or_false (not (seller_valid role)) _ (or_first _ (user == 0) c)))
  step-IsEdited (change seller actor target_id role) =
      refused (not (seller_valid role) || is_role role owner) _ _ λ c. refused (actor == 0) _ _ λ _.
        answered map_rbac_error (update_seller_user_role_tx seller actor target_id role) (
          update_seller_user_role_tx-IsEdited seller actor target_id role db
            (or_false (not (seller_valid role)) _ c))
  step-IsEdited (remove seller actor target_id) = refused (actor == 0) _ _ λ _.
      answered map_rbac_error (remove_seller_user_tx seller actor target_id)
        (remove_seller_user_tx-IsEdited seller actor target_id db)
  step-IsEdited (transfer seller actor target_id) = refused (actor == 0) _ _ λ _.
      answered map_rbac_error (transfer_ownership_tx seller actor target_id)
        (transfer_ownership_tx-IsEdited seller actor target_id db)
  step-IsEdited (grant actor user role id) =
      refused (not (platform_valid role) || user == 0) _ _ λ _. refused (actor == 0) _ _ λ _.
        answered map_rbac_error (grant_platform_admin_tx actor user role id)
          (grant_platform_admin_tx-IsEdited actor user role id db)
  step-IsEdited (regrade actor target_id role) = refused (not (platform_valid role)) _ _ λ _.
      refused (actor == 0) _ _ λ _.
        answered map_rbac_error (update_platform_admin_role_tx actor target_id role)
          (update_platform_admin_role_tx-IsEdited actor target_id role db)
  step-IsEdited (revoke actor target_id) = refused (actor == 0) _ _ λ _.
      answered map_rbac_error (revoke_platform_admin_tx actor target_id)
        (revoke_platform_admin_tx-IsEdited actor target_id db)
  step-IsEdited (bootstrap system user id) = refused (user == 0) _ _ λ _.
      either (ltb 0 (count_platform_role super_admin db)) _ _ (λ _. unedited db)
        λ c.
          answered all_internal (bootstrap_tx system user id)
            (bootstrap_tx-IsEdited system user id db (ground (arith, c)))
  step-IsEdited (create caller seller id) = refused (caller == 0) _ _ λ _.
      refused (is_some (find_by (has_slug seller.slug) db.sellers)) _ _ λ _.
        answered all_internal (create_seller_tx caller seller id)
          (create_seller_tx-IsEdited caller seller id db)
  step-IsEdited (approve_pending id) = approve_found-IsEdited id _
