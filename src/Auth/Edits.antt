-- ===== src/Auth/Edits.antt =====
-- What a call of backend/services/auth/internal/app can do to the tables, described by itself: one
-- edit with its entries in the audit log, and the condition under which it may be done.
use ec_test.Base.{ℕ, ◌≡◌, ◌≤◌, true, false, none, some, ◌∷◌, ◌==◌}
use ec_test.Auth.Domain.{
  RoleName, no_role, owner, admin, super_admin, is_role, Seller, SellerUser, PlatformAdmin,
  seller_approved, action_grant, action_revoke, action_role_change, action_transfer_ownership,
}
use ec_test.Base.Rows.{find_by, update_by, delete_by, has}
use ec_test.Auth.Store.{
  Db, is_user_of, check_seller_role, count_seller_role, with_user_role, with_status,
}
use ec_test.Auth.Team.{seller_entry}
use ec_test.Auth.Admins.{count_platform_role, check_platform_role, with_admin_role, admin_entry}

pub data Edit : Type 0 where
  add_user : (actor : ℕ) (su : SellerUser) → Edit
  change_user : (seller actor id : ℕ) (target : SellerUser) (role : RoleName) → Edit
  remove_user : (seller actor id : ℕ) (target : SellerUser) → Edit
  transfer_owner : (seller actor : ℕ) (current target : SellerUser) → Edit
  add_admin : (actor : ℕ) (pa : PlatformAdmin) → Edit
  first_admin : (actor : ℕ) (pa : PlatformAdmin) → Edit
  change_admin : (actor id : ℕ) (target : PlatformAdmin) (role : RoleName) → Edit
  remove_admin : (actor id : ℕ) (target : PlatformAdmin) → Edit
  open_seller : (s : Seller) (su : SellerUser) → Edit
  approve : (id : ℕ) → Edit
  nothing : Edit

unfoldable pub apply : Edit → Db → Db
apply (add_user actor su) db = record db {
  seller_users = su ∷ db.seller_users;
  rbac_audit_log =
      seller_entry su.seller_id actor su.auth0_user_id action_grant no_role su.role
      ∷ db.rbac_audit_log;
}
apply (change_user seller actor id target role) db = record db {
  seller_users = update_by (has (λ x. x.id) id) (with_user_role role) db.seller_users;
  rbac_audit_log =
      seller_entry seller actor target.auth0_user_id action_role_change target.role role
      ∷ db.rbac_audit_log;
}
apply (remove_user seller actor id target) db = record db {
  seller_users = delete_by (has (λ x. x.id) id) db.seller_users;
  rbac_audit_log =
      seller_entry seller actor target.auth0_user_id action_revoke target.role no_role
      ∷ db.rbac_audit_log;
}
apply (transfer_owner seller actor current target) db = record db {
  seller_users =
      update_by (has (λ x. x.id) target.id) (with_user_role owner)
        (update_by (has (λ x. x.id) current.id) (with_user_role admin) db.seller_users);
  rbac_audit_log =
      seller_entry seller actor current.auth0_user_id action_role_change owner admin
      ∷ seller_entry seller actor target.auth0_user_id action_transfer_ownership target.role owner
      ∷ db.rbac_audit_log;
}
apply (add_admin actor pa) db = record db {
  platform_admins = pa ∷ db.platform_admins;
  rbac_audit_log =
      admin_entry actor pa.auth0_user_id action_grant no_role pa.role ∷ db.rbac_audit_log;
}
apply (first_admin actor pa) db = record db {
  platform_admins = pa ∷ db.platform_admins;
  rbac_audit_log =
      admin_entry actor pa.auth0_user_id action_grant no_role pa.role ∷ db.rbac_audit_log;
}
apply (change_admin actor id target role) db = record db {
  platform_admins = update_by (has (λ x. x.id) id) (with_admin_role role) db.platform_admins;
  rbac_audit_log =
      admin_entry actor target.auth0_user_id action_role_change target.role role
      ∷ db.rbac_audit_log;
}
apply (remove_admin actor id target) db = record db {
  platform_admins = delete_by (has (λ x. x.id) id) db.platform_admins;
  rbac_audit_log =
      admin_entry actor target.auth0_user_id action_revoke target.role no_role ∷ db.rbac_audit_log;
}
apply (open_seller s su) db = record db {
  sellers = s ∷ db.sellers;
  seller_users = su ∷ db.seller_users;
}
apply (approve id) db = record db {
  sellers = update_by (has (λ x. x.id) id) (with_status seller_approved) db.sellers;
}
apply nothing db = db

-- A row that fits into the table of the users, or of the admins.
abbrev pub IsNewUser : SellerUser → Db → Type 0
IsNewUser su db =
    (find_by (has (λ x. x.id) su.id) db.seller_users ≡ none)
    × (find_by (has (λ x. x.auth0_user_id) su.auth0_user_id) db.seller_users ≡ none)

abbrev pub IsNewAdmin : PlatformAdmin → Db → Type 0
IsNewAdmin pa db =
    (find_by (has (λ x. x.id) pa.id) db.platform_admins ≡ none)
    × (find_by (has (λ x. x.auth0_user_id) pa.auth0_user_id) db.platform_admins ≡ none)

-- The only owner, and the only super_admin, may not lose the role.
abbrev pub IsSpare : SellerUser → Db → Type 0
unfolding count_seller_role
IsSpare target db =
    is_role target.role owner ≡ true → 2 ≤ count_seller_role target.seller_id owner db

abbrev pub IsSpareAdmin : PlatformAdmin → Db → Type 0
unfolding count_platform_role
IsSpareAdmin target db =
    is_role target.role super_admin ≡ true → 2 ≤ count_platform_role super_admin db

-- The actor has the highest role.
unfoldable pub IsOwner : ℕ → ℕ → Db → Type 0
unfolding check_seller_role
IsOwner seller actor db = is_role (check_seller_role seller actor db) owner ≡ true

unfoldable pub IsSuperAdmin : ℕ → Db → Type 0
unfolding check_platform_role
IsSuperAdmin actor db = is_role (check_platform_role actor db) super_admin ≡ true

abbrev pub IsTarget : ℕ → ℕ → SellerUser → Db → Type 0
IsTarget seller id target db =
    (find_by (has (λ x. x.id) id) db.seller_users ≡ some target) × (target.seller_id ≡ seller)

unfoldable pub Allowed : Edit → Db → Type 0
unfolding IsOwner IsSuperAdmin
Allowed (add_user actor su) db =
    IsOwner su.seller_id actor db × IsNewUser su db × (is_role su.role owner ≡ false)
Allowed (change_user seller actor id target role) db =
    IsOwner seller actor db
    × IsTarget seller id target db
    × IsSpare target db
    × (is_role role owner ≡ false)
Allowed (remove_user seller actor id target) db =
    IsOwner seller actor db × IsTarget seller id target db × IsSpare target db
Allowed (transfer_owner seller actor current target) db =
    (find_by (is_user_of seller actor) db.seller_users ≡ some current)
    × (is_role current.role owner ≡ true)
    × IsTarget seller target.id target db
    × ((target.id == current.id) ≡ false)
Allowed (add_admin actor pa) db = IsSuperAdmin actor db × IsNewAdmin pa db
Allowed (first_admin actor pa) db =
    (count_platform_role super_admin db ≡ 0) × IsNewAdmin pa db × (pa.role ≡ super_admin)
Allowed (change_admin actor id target role) db =
    IsSuperAdmin actor db
    × (find_by (has (λ x. x.id) id) db.platform_admins ≡ some target)
    × IsSpareAdmin target db
Allowed (remove_admin actor id target) db =
    IsSuperAdmin actor db
    × (find_by (has (λ x. x.id) id) db.platform_admins ≡ some target)
    × IsSpareAdmin target db
Allowed (open_seller s su) db =
    IsNewUser su db
    × (find_by (has (λ x. x.id) s.id) db.sellers ≡ none)
    × (su.seller_id ≡ s.id)
    × (su.role ≡ owner)
Allowed (approve id) db = Unit {0}
Allowed nothing db = Unit {0}

-- The tables after a call that does not fail.
pub record IsEdited (db db' : Db) : Type 0 where
  pub edit : Edit
  pub is_allowed : Allowed edit db
  pub is_applied : db' ≡ apply edit db
