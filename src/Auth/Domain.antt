-- ===== src/Auth/Domain.antt =====
-- The roles, users and audit entries of backend/services/auth/internal/domain. Ids and texts are
-- numbers; 0 is the empty text.
use ec_test.Base.{ℕ, ◌+◌, Bool, Option, ◌==◌, leb, ltb}

-- `SellerUserRole` and `PlatformAdminRole` are both strings, written to the same column of the
-- audit log.
pub data RoleName : Type 0 where
  no_role owner admin member super_admin support : RoleName
  other_role : ℕ → RoleName

abbrev pub role_code : RoleName → ℕ
role_code no_role = 0
role_code owner = 1
role_code admin = 2
role_code member = 3
role_code super_admin = 4
role_code support = 5
role_code (other_role n) = 6 + n

abbrev pub is_role : RoleName → RoleName → Bool
is_role r r' = role_code r == role_code r'

-- `SellerUserRole.Rank`
abbrev pub seller_rank : RoleName → ℕ
seller_rank owner = 3
seller_rank admin = 2
seller_rank member = 1
seller_rank _ = 0

-- `PlatformAdminRole.Rank`
abbrev pub platform_rank : RoleName → ℕ
platform_rank super_admin = 3
platform_rank admin = 2
platform_rank support = 1
platform_rank _ = 0

-- `AtLeast` and `Valid` of either kind of role.
abbrev pub seller_at_least : RoleName → RoleName → Bool
seller_at_least r min = leb (seller_rank min) (seller_rank r)

abbrev pub platform_at_least : RoleName → RoleName → Bool
platform_at_least r min = leb (platform_rank min) (platform_rank r)

abbrev pub seller_valid : RoleName → Bool
seller_valid r = ltb 0 (seller_rank r)

abbrev pub platform_valid : RoleName → Bool
platform_valid r = ltb 0 (platform_rank r)

pub data SellerStatus : Type 0 where
  seller_pending seller_approved seller_rejected seller_suspended : SellerStatus

pub record Seller : Type 0 where
  pub id : ℕ
  pub slug : ℕ
  pub status : SellerStatus

pub record SellerUser : Type 0 where
  pub id : ℕ
  pub seller_id : ℕ
  pub auth0_user_id : ℕ
  pub role : RoleName

pub record PlatformAdmin : Type 0 where
  pub id : ℕ
  pub auth0_user_id : ℕ
  pub role : RoleName

pub data RbacScope : Type 0 where
  scope_seller_user scope_platform_admin : RbacScope

pub data RbacAction : Type 0 where
  action_grant action_revoke action_role_change action_transfer_ownership : RbacAction

pub record RbacAuditEntry : Type 0 where
  pub actor_auth0_user_id : ℕ
  pub target_auth0_user_id : ℕ
  pub scope : RbacScope
  pub scope_id : Option ℕ
  pub action : RbacAction
  pub before_role : RoleName
  pub after_role : RoleName
