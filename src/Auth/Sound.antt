-- ===== src/Auth/Sound.antt =====
-- The unique columns of the tables over any calls, and the induction over the calls
-- (backend/services/auth/internal/app/rbac.go and identity.go).
use ec_test.Base.{ℕ, ◌≡◌, refl, sym, subst, List, [], ◌∷◌, arith}
use ec_test.Auth.Domain.{owner, admin, Seller, SellerUser, PlatformAdmin, seller_approved}
use ec_test.Base.Rows.{find_by, update_by, has, IsUnique, IsUnique-update, IsUnique-delete}
use ec_test.Auth.Store.{Db, is_some, with_user_role, with_status}
use ec_test.Auth.Admins.{with_admin_role}
use ec_test.Auth.Edits.{
  Edit, add_user, change_user, remove_user, transfer_owner, add_admin, first_admin, change_admin,
  remove_admin, open_seller, approve, nothing, apply, Allowed,
}
use ec_test.Auth.History.{Call, run, step, step-IsEdited, empty_db}

-- The unique columns.
pub record IsSound (db : Db) : Type 0 where
  pub user_ids : IsUnique (λ (x : SellerUser). x.id) db.seller_users
  pub users : IsUnique (λ (x : SellerUser). x.auth0_user_id) db.seller_users
  pub admin_ids : IsUnique (λ (x : PlatformAdmin). x.id) db.platform_admins
  pub admins : IsUnique (λ (x : PlatformAdmin). x.auth0_user_id) db.platform_admins

abbrev pub user_id : SellerUser → ℕ
user_id su = su.id

abbrev pub admin_id : PlatformAdmin → ℕ
admin_id pa = pa.id

pub apply-IsSound : (e : Edit) (db : Db) → Allowed e db → IsSound db → IsSound (apply e db)
unfolding apply Allowed IsUnique
apply-IsSound (add_user actor su) db h w = record {
  user_ids = (h.1.0, w.user_ids);
  users = (h.1.1, w.users);
  admin_ids = w.admin_ids;
  admins = w.admins;
}
apply-IsSound (change_user seller actor id target role) db h w = record {
  user_ids = IsUnique-update user_id id (with_user_role role) _ _ (λ _. refl) w.user_ids;
  users = IsUnique-update user_id id (with_user_role role) _ _ (λ _. refl) w.users;
  admin_ids = w.admin_ids;
  admins = w.admins;
}
apply-IsSound (remove_user seller actor id target) db h w = record {
  user_ids = IsUnique-delete user_id id _ _ w.user_ids;
  users = IsUnique-delete user_id id _ _ w.users;
  admin_ids = w.admin_ids;
  admins = w.admins;
}
apply-IsSound (transfer_owner seller actor current target) db h w = record {
  user_ids =
      IsUnique-update user_id target.id (with_user_role owner) _ _ (λ _. refl)
        (IsUnique-update user_id current.id (with_user_role admin) _ _ (λ _. refl) w.user_ids);
  users =
      IsUnique-update user_id target.id (with_user_role owner) _ _ (λ _. refl)
        (IsUnique-update user_id current.id (with_user_role admin) _ _ (λ _. refl) w.users);
  admin_ids = w.admin_ids;
  admins = w.admins;
}
apply-IsSound (add_admin actor pa) db h w = record {
  user_ids = w.user_ids;
  users = w.users;
  admin_ids = (h.1.0, w.admin_ids);
  admins = (h.1.1, w.admins);
}
apply-IsSound (first_admin actor pa) db h w = record {
  user_ids = w.user_ids;
  users = w.users;
  admin_ids = (h.1.0, w.admin_ids);
  admins = (h.1.1, w.admins);
}
apply-IsSound (change_admin actor id target role) db h w = record {
  user_ids = w.user_ids;
  users = w.users;
  admin_ids = IsUnique-update admin_id id (with_admin_role role) _ _ (λ _. refl) w.admin_ids;
  admins = IsUnique-update admin_id id (with_admin_role role) _ _ (λ _. refl) w.admins;
}
apply-IsSound (remove_admin actor id target) db h w = record {
  user_ids = w.user_ids;
  users = w.users;
  admin_ids = IsUnique-delete admin_id id _ _ w.admin_ids;
  admins = IsUnique-delete admin_id id _ _ w.admins;
}
apply-IsSound (open_seller s su) db h w = record {
  user_ids = (h.0.0, w.user_ids);
  users = (h.0.1, w.users);
  admin_ids = w.admin_ids;
  admins = w.admins;
}
apply-IsSound (approve id) db h w = record {
  user_ids = w.user_ids;
  users = w.users;
  admin_ids = w.admin_ids;
  admins = w.admins;
}
apply-IsSound nothing db h w = w

-- What every edit keeps on sound tables, every sequence of calls keeps.
module _ (P : Db → Type 0)
    (keeps : (e : Edit) (db : Db) → Allowed e db → IsSound db → P db → P (apply e db)) where
  step-keeps : (db : Db) (c : Call) → IsSound db × P db → IsSound (step db c) × P (step db c)
  step-keeps db c h =
      let made = step-IsEdited db c in
      subst (λ d. IsSound d × P d) (sym made.is_applied)
        (apply-IsSound made.edit db made.is_allowed h.0, keeps made.edit db made.is_allowed h.0 h.1)

  pub run-keeps :
      (db : Db) (cs : List Call) → IsSound db × P db → IsSound (run db cs) × P (run db cs)
  unfolding run
  run-keeps db [] h = h
  run-keeps db (c ∷ cs) h = run-keeps (step db c) cs (step-keeps db c h)

pub empty-IsSound : IsSound empty_db
unfolding IsUnique
empty-IsSound = record { user_ids = tt; users = tt; admin_ids = tt; admins = tt }

-- A change of a status keeps every seller.
module _ (k : ℕ) where
  pub status-exists :
      (id : ℕ) (xs : List Seller)
      → is_some (
          find_by
            (has (λ x. x.id) k)
            (update_by (has (λ x. x.id) id) (with_status seller_approved) xs))
        ≡ is_some (find_by (has (λ x. x.id) k) xs)
  unfolding find_by update_by
  status-exists id [] = refl
  status-exists id (x ∷ xs) = ground (arith, status-exists id xs)
