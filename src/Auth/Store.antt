-- ===== src/Auth/Store.antt =====
-- The statements of the auth service on sellers, seller users, platform admins and the audit log
-- (backend/services/auth/internal/adapter/postgres, on the tables of infra/db/migrations/auth). New
-- rows stand first. Failures of the database itself are not modelled.
use ec_test.Base.{
  ℕ, Bool, true, false, not, ◌&&◌, ◌||◌, Option, none, some, List, ◌∷◌, ◌==◌, if◌then◌else◌,
}
use ec_test.Base.Tx.{Tx, ok, err, gets, modify}
use ec_test.Auth.Domain.{
  RoleName, no_role, is_role, Seller, SellerStatus, SellerUser, PlatformAdmin, RbacAuditEntry,
  seller_valid,
}
use ec_test.Base.Rows.{find_by, count_by, update_by, delete_by, has}

-- The answers of the service with their codes, and the errors that it wraps.
pub data Error : Type 0 where
  bad_request unauthorized conflict forbidden not_found internal : Error
  last_owner last_super_admin self_role_change insufficient_role target_not_found : Error
  statement_failed row_not_found : Error

pub record Db : Type 0 where
  pub sellers : List Seller
  pub seller_users : List SellerUser
  pub platform_admins : List PlatformAdmin
  pub rbac_audit_log : List RbacAuditEntry

abbrev pub M : Type 0 → Type 0
M A = Tx Db Error A

abbrev pub is_some : {A : Type 0} → Option A → Bool
is_some none = false
is_some (some a) = true

abbrev pub has_slug : ℕ → Seller → Bool
has_slug slug s = s.slug == slug

-- `SellerRepository.Create`, with the primary key and the unique slug.
unfoldable pub create_seller_row : Seller → M (Unit {0})
create_seller_row s db =
    if is_some (find_by (has (λ x. x.id) s.id) db.sellers)
      || is_some (find_by (has_slug s.slug) db.sellers)
    then err statement_failed
    else ok (tt, record db { sellers = s ∷ db.sellers })

-- `SellerRepository.GetByID` and `GetBySlug`
abbrev pub get_seller_by_id : ℕ → Db → Option Seller
get_seller_by_id id db = find_by (has (λ x. x.id) id) db.sellers

abbrev pub get_seller_by_slug : ℕ → Db → Option Seller
get_seller_by_slug slug db = find_by (has_slug slug) db.sellers

abbrev pub with_status : SellerStatus → Seller → Seller
with_status status s = record s { status = status }

-- `SellerRepository.UpdateStatus`
unfoldable pub update_seller_status : ℕ → SellerStatus → M (Unit {0})
update_seller_status id status db =
    if is_some (find_by (has (λ x. x.id) id) db.sellers)
    then ok
        (tt, record db { sellers = update_by (has (λ x. x.id) id) (with_status status) db.sellers })
    else err row_not_found

-- The constraints on a new row: a user belongs to one seller at most, the seller exists, and the
-- role is one of the three.
abbrev pub fits_user : SellerUser → Db → Bool
fits_user su db =
    not (is_some (find_by (has (λ x. x.id) su.id) db.seller_users))
    && not (is_some (find_by (has (λ x. x.auth0_user_id) su.auth0_user_id) db.seller_users))
    && is_some (find_by (has (λ x. x.id) su.seller_id) db.sellers)
    && seller_valid su.role

-- `SellerUserRepository.Create`
unfoldable pub create_seller_user : SellerUser → M (Unit {0})
create_seller_user su db =
    if fits_user su db
    then ok (tt, record db { seller_users = su ∷ db.seller_users })
    else err statement_failed

abbrev pub is_user_of : ℕ → ℕ → SellerUser → Bool
is_user_of seller_id user su = su.seller_id == seller_id && su.auth0_user_id == user

-- `SellerUserRepository.GetByID`
abbrev pub get_user_by_id : ℕ → M (Option SellerUser)
get_user_by_id id = gets (λ db. find_by (has (λ x. x.id) id) db.seller_users)

-- `SellerUserRepository.GetByAuth0ID`
abbrev pub get_user_by_auth0_id : ℕ → ℕ → M (Option SellerUser)
get_user_by_auth0_id seller_id user =
    gets (λ db. find_by (is_user_of seller_id user) db.seller_users)

abbrev pub role_of_user : Option SellerUser → RoleName
role_of_user none = no_role
role_of_user (some su) = su.role

-- `SellerUserRepository.CheckRole`
unfoldable pub check_seller_role : ℕ → ℕ → Db → RoleName
check_seller_role seller_id user db =
    role_of_user (find_by (is_user_of seller_id user) db.seller_users)

abbrev pub has_role_in : ℕ → RoleName → SellerUser → Bool
has_role_in seller_id role su = su.seller_id == seller_id && is_role su.role role

-- `SellerUserRepository.CountByRole`
unfoldable pub count_seller_role : ℕ → RoleName → Db → ℕ
count_seller_role seller_id role db = count_by (has_role_in seller_id role) db.seller_users

abbrev pub with_user_role : RoleName → SellerUser → SellerUser
with_user_role role su = record su { role = role }

-- `SellerUserRepository.UpdateRole`
unfoldable pub update_user_role : ℕ → RoleName → M (Unit {0})
update_user_role id role db =
    if is_some (find_by (has (λ x. x.id) id) db.seller_users)
    then (if seller_valid role
        then ok (
          tt,
          record db {
            seller_users = update_by (has (λ x. x.id) id) (with_user_role role) db.seller_users;
          },
        )
        else err statement_failed)
    else err row_not_found

-- `SellerUserRepository.Delete`
unfoldable pub delete_user : ℕ → M (Unit {0})
delete_user id db =
    if is_some (find_by (has (λ x. x.id) id) db.seller_users)
    then ok (tt, record db { seller_users = delete_by (has (λ x. x.id) id) db.seller_users })
    else err row_not_found

-- `RBACAuditRepository.Append`
abbrev pub append_audit : RbacAuditEntry → M (Unit {0})
append_audit e = modify (λ db. record db { rbac_audit_log = e ∷ db.rbac_audit_log })
