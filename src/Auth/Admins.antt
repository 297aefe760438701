-- ===== src/Auth/Admins.antt =====
-- Platform admins: backend/services/auth/internal/adapter/postgres/platform_admin_repo.go, and the
-- operations on them of backend/services/auth/internal/app/rbac.go.
use ec_test.Base.{ℕ, Bool, not, ◌&&◌, ◌||◌, Option, none, some, ◌∷◌, ◌==◌, leb, ltb, if◌then◌else◌}
use ec_test.Base.Tx.{Result, ok, err, pure, throw, guard, gets, run_tx, ◌>>◌, ◌>>=◌}
use ec_test.Auth.Domain.{
  RoleName, no_role, super_admin, is_role, platform_at_least, platform_valid, PlatformAdmin,
  RbacAuditEntry, RbacAction, action_grant, action_revoke, action_role_change, scope_platform_admin,
}
use ec_test.Base.Rows.{find_by, count_by, update_by, delete_by, has}
use ec_test.Auth.Store.{
  Db, M, Error, bad_request, unauthorized, conflict, internal, last_super_admin, self_role_change,
  insufficient_role, target_not_found, statement_failed, row_not_found, is_some, append_audit,
}
use ec_test.Auth.Team.{map_answer, rbac_call}

abbrev pub fits_admin : PlatformAdmin → Db → Bool
fits_admin pa db =
    not (is_some (find_by (has (λ x. x.id) pa.id) db.platform_admins))
    && not (is_some (find_by (has (λ x. x.auth0_user_id) pa.auth0_user_id) db.platform_admins))
    && platform_valid pa.role

-- `PlatformAdminRepository.Create`
unfoldable pub create_platform_admin : PlatformAdmin → M (Unit {0})
create_platform_admin pa db =
    if fits_admin pa db
    then ok (tt, record db { platform_admins = pa ∷ db.platform_admins })
    else err statement_failed

-- `PlatformAdminRepository.GetByID` and `GetByAuth0ID`
abbrev pub get_admin_by_id : ℕ → M (Option PlatformAdmin)
get_admin_by_id id = gets (λ db. find_by (has (λ x. x.id) id) db.platform_admins)

abbrev pub get_admin_by_auth0_id : ℕ → M (Option PlatformAdmin)
get_admin_by_auth0_id user =
    gets (λ db. find_by (has (λ x. x.auth0_user_id) user) db.platform_admins)

abbrev pub role_of_admin : Option PlatformAdmin → RoleName
role_of_admin none = no_role
role_of_admin (some pa) = pa.role

-- `PlatformAdminRepository.CheckRole`
unfoldable pub check_platform_role : ℕ → Db → RoleName
check_platform_role user db =
    role_of_admin (find_by (has (λ x. x.auth0_user_id) user) db.platform_admins)

abbrev pub has_role : RoleName → PlatformAdmin → Bool
has_role role pa = is_role pa.role role

-- `PlatformAdminRepository.CountByRole`
unfoldable pub count_platform_role : RoleName → Db → ℕ
count_platform_role role db = count_by (has_role role) db.platform_admins

abbrev pub with_admin_role : RoleName → PlatformAdmin → PlatformAdmin
with_admin_role role pa = record pa { role = role }

-- `PlatformAdminRepository.UpdateRole`
unfoldable pub update_admin_role : ℕ → RoleName → M (Unit {0})
update_admin_role id role db =
    if is_some (find_by (has (λ x. x.id) id) db.platform_admins)
    then (if platform_valid role
        then ok (
          tt,
          record db {
            platform_admins =
                update_by (has (λ x. x.id) id) (with_admin_role role) db.platform_admins;
          },
        )
        else err statement_failed)
    else err row_not_found

-- `PlatformAdminRepository.Delete`
unfoldable pub delete_admin : ℕ → M (Unit {0})
delete_admin id db =
    if is_some (find_by (has (λ x. x.id) id) db.platform_admins)
    then ok (tt, record db { platform_admins = delete_by (has (λ x. x.id) id) db.platform_admins })
    else err row_not_found

-- `LookupPlatformAdminRole`
abbrev pub lookup_platform_admin_role : ℕ → Db → RoleName
lookup_platform_admin_role = check_platform_role

-- `requirePlatformAdminAtLeast`
abbrev pub ranks_platform : RoleName → RoleName → Bool
ranks_platform role min = not (is_role role no_role) && platform_at_least role min

unfoldable pub require_platform_admin : ℕ → RoleName → M (Unit {0})
unfolding check_platform_role
require_platform_admin actor min db =
    guard (ranks_platform (check_platform_role actor db) min) insufficient_role db

abbrev pub admin_entry : ℕ → ℕ → RbacAction → RoleName → RoleName → RbacAuditEntry
admin_entry actor target action before after = record {
  actor_auth0_user_id = actor;
  target_auth0_user_id = target;
  scope = scope_platform_admin;
  scope_id = none;
  action = action;
  before_role = before;
  after_role = after;
}

abbrev pub new_admin : ℕ → ℕ → RoleName → PlatformAdmin
new_admin id user role = record { id = id; auth0_user_id = user; role = role }

module _ (actor : ℕ) where
  -- The transaction of `GrantPlatformAdmin`, with a fresh uuid.
  unfoldable pub grant_platform_admin_tx : ℕ → RoleName → ℕ → M PlatformAdmin
  unfolding require_platform_admin create_platform_admin
  grant_platform_admin_tx user role id = do
    require_platform_admin actor super_admin
    existing ← get_admin_by_auth0_id user
    guard (not (is_some existing)) conflict
    create_platform_admin (new_admin id user role)
    append_audit (admin_entry actor user action_grant no_role role)
    pure (new_admin id user role)

  unfoldable pub grant_platform_admin : ℕ → RoleName → ℕ → Db → Result Error PlatformAdmin × Db
  unfolding grant_platform_admin_tx
  grant_platform_admin user role id db =
      if not (platform_valid role) || user == 0
      then (err bad_request, db)
      else if actor == 0
      then (err unauthorized, db)
      else rbac_call (grant_platform_admin_tx user role id) db

  abbrev pub some_admin : Option PlatformAdmin → M PlatformAdmin
  some_admin none = throw target_not_found
  some_admin (some target) = pure target

  -- The safeguard of the last super_admin.
  unfoldable pub guard_last_super_admin : PlatformAdmin → M (Unit {0})
  unfolding count_platform_role
  guard_last_super_admin target db =
      guard (not (is_role target.role super_admin && leb (count_platform_role super_admin db) 1))
        last_super_admin db

  -- `UpdatePlatformAdminRole`, from the lookup of the target.
  abbrev pub change_admin_role : ℕ → RoleName → PlatformAdmin → M (Unit {0})
  change_admin_role target_id new_role target =
      if target.auth0_user_id == actor
      then throw self_role_change
      else if is_role target.role new_role
      then pure tt
      else do
        guard_last_super_admin target
        update_admin_role target_id new_role
        append_audit
            (admin_entry actor target.auth0_user_id action_role_change target.role new_role)

  unfoldable pub update_platform_admin_role_tx : ℕ → RoleName → M (Unit {0})
  unfolding require_platform_admin guard_last_super_admin update_admin_role
  update_platform_admin_role_tx target_id new_role = do
    require_platform_admin actor super_admin
    found ← get_admin_by_id target_id
    target ← some_admin found
    change_admin_role target_id new_role target

  unfoldable pub update_platform_admin_role : ℕ → RoleName → Db → Result Error (Unit {0}) × Db
  unfolding update_platform_admin_role_tx
  update_platform_admin_role target_id new_role db =
      if not (platform_valid new_role)
      then (err bad_request, db)
      else if actor == 0
      then (err unauthorized, db)
      else rbac_call (update_platform_admin_role_tx target_id new_role) db

  -- `RevokePlatformAdmin`
  abbrev pub revoke_target : ℕ → PlatformAdmin → M (Unit {0})
  revoke_target target_id target =
      if target.auth0_user_id == actor then throw self_role_change else do
        guard_last_super_admin target
        delete_admin target_id
        append_audit (admin_entry actor target.auth0_user_id action_revoke target.role no_role)

  unfoldable pub revoke_platform_admin_tx : ℕ → M (Unit {0})
  unfolding require_platform_admin guard_last_super_admin delete_admin
  revoke_platform_admin_tx target_id = do
    require_platform_admin actor super_admin
    found ← get_admin_by_id target_id
    target ← some_admin found
    revoke_target target_id target

  unfoldable pub revoke_platform_admin : ℕ → Db → Result Error (Unit {0}) × Db
  unfolding revoke_platform_admin_tx
  revoke_platform_admin target_id db =
      if actor == 0
      then (err unauthorized, db)
      else rbac_call (revoke_platform_admin_tx target_id) db

-- `BootstrapSuperAdmin`; `bootstrap` is the actor that it writes to the audit log.
unfoldable pub bootstrap_tx : ℕ → ℕ → ℕ → M (Unit {0})
unfolding create_platform_admin
bootstrap_tx bootstrap user id = do
  create_platform_admin (new_admin id user super_admin)
  append_audit (admin_entry bootstrap user action_grant no_role super_admin)

abbrev pub all_internal : Error → Error
all_internal e = internal

unfoldable pub bootstrap_super_admin : ℕ → ℕ → ℕ → Db → Result Error (Unit {0}) × Db
unfolding bootstrap_tx count_platform_role
bootstrap_super_admin bootstrap user id db =
    if user == 0
    then (err bad_request, db)
    else if ltb 0 (count_platform_role super_admin db)
    then (ok tt, db)
    else map_answer all_internal (run_tx (bootstrap_tx bootstrap user id) db)
