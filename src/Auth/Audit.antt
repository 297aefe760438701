-- ===== src/Auth/Audit.antt =====
-- The audit log against the tables (backend/services/auth/internal/app/rbac.go, domain/audit.go):
-- the role of a user, read off the log.
use ec_test.Base.{
  ℕ, ◌≡◌, refl, ap, ◌∙◌, Bool, true, false, ◌&&◌, Option, some, List, [], ◌∷◌, ◌==◌, if◌then◌else◌,
  ==_iff,
}
use ec_test.Auth.Domain.{
  RoleName, no_role, PlatformAdmin, RbacAuditEntry, RbacScope, scope_seller_user,
  scope_platform_admin,
}
use ec_test.Base.Rows.{find_by, has}
use ec_test.Base.Lookups.{lookup-update, lookup-delete}
use ec_test.Auth.Store.{Db}
use ec_test.Auth.Admins.{check_platform_role, role_of_admin, with_admin_role}
use ec_test.Auth.Edits.{
  Edit, add_user, change_user, remove_user, transfer_owner, add_admin, first_admin, change_admin,
  remove_admin, open_seller, approve, nothing, apply, Allowed,
}
use ec_test.Auth.Sound.{IsSound, admin_id, run-keeps, empty-IsSound}
use ec_test.Auth.History.{Call, run, empty_db}

-- The entries about one user of a seller, and about one platform admin.
abbrev pub is_on_seller : RbacScope → Option ℕ → ℕ → Bool
is_on_seller scope_seller_user (some id) seller = id == seller
is_on_seller _ _ seller = false

abbrev pub is_on_platform : RbacScope → Bool
is_on_platform scope_platform_admin = true
is_on_platform scope_seller_user = false

abbrev pub is_about : ℕ → ℕ → RbacAuditEntry → Bool
is_about seller user e = is_on_seller e.scope e.scope_id seller && e.target_auth0_user_id == user

abbrev pub is_about_admin : ℕ → RbacAuditEntry → Bool
is_about_admin user e = is_on_platform e.scope && e.target_auth0_user_id == user

-- The role after the newest of these entries, or the role before all of them.
unfoldable pub logged_role : (RbacAuditEntry → Bool) → RoleName → List RbacAuditEntry → RoleName
logged_role p before [] = before
logged_role p before (e ∷ es) = if p e then e.after_role else logged_role p before es

-- Admins.
module _ (user : ℕ) where
  unfoldable IsLoggedAdmin : Db → Type 0
  unfolding check_platform_role
  IsLoggedAdmin db =
      check_platform_role user db ≡ logged_role (is_about_admin user) no_role db.rbac_audit_log

  fixes_admin : (x : PlatformAdmin) → (x.auth0_user_id == user) ≡ true → x.auth0_user_id ≡ user
  fixes_admin x h = (==_iff x.auth0_user_id user).0 h

  abbrev admin_user : PlatformAdmin → ℕ
  admin_user pa = pa.auth0_user_id

  granted :
      (pa : PlatformAdmin) (db : Db)
      → IsLoggedAdmin db
      → role_of_admin (find_by (has admin_user user) (pa ∷ db.platform_admins)) ≡ (
          if pa.auth0_user_id == user
          then pa.role
          else logged_role (is_about_admin user) no_role db.rbac_audit_log)
  unfolding find_by IsLoggedAdmin check_platform_role
  granted pa db o =
      elim (pa.auth0_user_id == user)
        as (λ b.
          role_of_admin (if b then some pa else find_by (has admin_user user) db.platform_admins)
          ≡ (if b then pa.role else logged_role (is_about_admin user) no_role db.rbac_audit_log)) [
            | true ↦ refl
            | false ↦ o
          ]

  apply-IsLoggedAdmin :
      (e : Edit) (db : Db)
      → Allowed e db
      → IsSound db
      → IsLoggedAdmin db
      → IsLoggedAdmin (apply e db)
  unfolding apply Allowed IsLoggedAdmin check_platform_role logged_role find_by
  apply-IsLoggedAdmin (add_user actor su) db h w o = o
  apply-IsLoggedAdmin (change_user seller actor id target role) db h w o = o
  apply-IsLoggedAdmin (remove_user seller actor id target) db h w o = o
  apply-IsLoggedAdmin (transfer_owner seller actor current target) db h w o = o
  apply-IsLoggedAdmin (add_admin actor pa) db h w o = granted pa db o
  apply-IsLoggedAdmin (first_admin actor pa) db h w o = granted pa db o
  apply-IsLoggedAdmin (change_admin actor id target role) db h w o =
      lookup-update admin_id id (has admin_user user) admin_user user fixes_admin role_of_admin
        (with_admin_role role) db.platform_admins target (λ _. refl) w.admin_ids w.admins h.1
      ∙ ap (λ r. if target.auth0_user_id == user then role else r) o
  apply-IsLoggedAdmin (remove_admin actor id target) db h w o =
      lookup-delete admin_id id (has admin_user user) admin_user user fixes_admin role_of_admin
        db.platform_admins target w.admin_ids w.admins h.1
      ∙ ap (λ r. if target.auth0_user_id == user then no_role else r) o
  apply-IsLoggedAdmin (open_seller s su) db h w o = o
  apply-IsLoggedAdmin (approve id) db h w o = o
  apply-IsLoggedAdmin nothing db h w o = o

-- After any calls on empty tables, whatever they answered, the role of a platform admin is the one
-- in the newest entry about this user in the audit log, and none if there is no entry.
pub run-IsLoggedAdmin :
    (cs : List Call) (user : ℕ)
    → check_platform_role user (run empty_db cs)
      ≡ logged_role (is_about_admin user) no_role (run empty_db cs).rbac_audit_log
unfolding IsLoggedAdmin check_platform_role find_by logged_role
run-IsLoggedAdmin cs user =
    (run-keeps (IsLoggedAdmin user) (apply-IsLoggedAdmin user) empty_db cs (empty-IsSound, refl)).1
