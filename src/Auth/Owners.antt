-- ===== src/Auth/Owners.antt =====
-- The owners of sellers and the super_admins over any calls
-- (backend/services/auth/internal/app/rbac.go and identity.go).
use ec_test.Base.{
  ℕ, ◌+◌, ◌≡◌, refl, sym, ap, subst, ◌∙◌, ◌≤◌, true, false, none, some, List, ◌==◌, if◌then◌else◌,
  Bool-cases, ==_iff, arith, inl, inr,
}
use ec_test.Auth.Domain.{RoleName, owner, admin, super_admin, is_role, SellerUser}
use ec_test.Base.Rows.{
  find_by, count_by, update_by, has, IsUnique, count-update, count-delete, IsUnique-update,
  find-update_other, find-holds, count-found, find-own,
}
use ec_test.Auth.Store.{Db, is_some, count_seller_role, has_role_in, with_user_role, is_user_of}
use ec_test.Auth.Admins.{count_platform_role, has_role, with_admin_role}
use ec_test.Auth.Edits.{
  Edit, add_user, change_user, remove_user, transfer_owner, add_admin, first_admin, change_admin,
  remove_admin, open_seller, approve, nothing, apply, IsSpare, Allowed,
}
use ec_test.Auth.Calls.{and_true}
use ec_test.Auth.History.{Call, run, empty_db}
use ec_test.Auth.Sound.{IsSound, user_id, admin_id, run-keeps, empty-IsSound, status-exists}

-- Each seller has one owner, and no id without a seller has any.
module _ (k : ℕ) where
  unfoldable pub IsOwned : Db → Type 0
  unfolding count_seller_role
  IsOwned db =
      count_seller_role k owner db
      ≡ (if is_some (find_by (has (λ x. x.id) k) db.sellers) then 1 else 0)

  -- An UPDATE or a DELETE of one user, in the count of the owners.
  count-owners :
      (role : RoleName) (id : ℕ) (xs : List SellerUser) (a : SellerUser)
      → IsUnique user_id xs
      → find_by (has user_id id) xs ≡ some a
      → count_by (has_role_in k owner) (update_by (has user_id id) (with_user_role role) xs)
          + (if has_role_in k owner a then 1 else 0)
        ≡ count_by (has_role_in k owner) xs
          + (if has_role_in k owner (with_user_role role a) then 1 else 0)
  count-owners role id xs a =
      count-update user_id id (with_user_role role) (has_role_in k owner) xs a

  -- No owner is spare where there is only one.
  spare-here :
      (t : SellerUser) (db : Db)
      → IsSpare t db
      → count_seller_role k owner db ≤ 1
      → has_role_in k owner t ≡ false
  unfolding count_seller_role
  spare-here t db h c = elim (Bool-cases (has_role_in k owner t)) [
    | inr c' ↦ c'
    | inl c' ↦
        let parts = and_true (t.seller_id == k) _ c' in
        let two : 2 ≤ count_seller_role k owner db =
          subst (λ n. 2 ≤ count_seller_role n owner db) ((==_iff t.seller_id k).0 parts.0)
            (h parts.1) in
        ground arith
  ]

  one_at_most : (db : Db) → IsOwned db → count_seller_role k owner db ≤ 1
  unfolding IsOwned count_seller_role
  one_at_most db o = ground (arith, o)

  apply-IsOwned :
      (e : Edit) (db : Db) → Allowed e db → IsSound db → IsOwned db → IsOwned (apply e db)
  unfolding apply Allowed count_seller_role count_by find_by IsOwned
  apply-IsOwned (add_user actor su) db h w o = let no = h.2 in ground (arith, o)
  apply-IsOwned (change_user seller actor id target role) db h w o =
      let eq = count-owners role id db.seller_users target w.user_ids h.1.0 in
      let none_lost = spare-here target db h.2 (one_at_most db o) in
      let none_made = h.3 in ground arith
  apply-IsOwned (remove_user seller actor id target) db h w o =
      let eq =
        count-delete user_id id (has_role_in k owner) db.seller_users target w.user_ids h.1.0 in
      let none_lost = spare-here target db h.2 (one_at_most db o) in ground arith
  apply-IsOwned (transfer_owner seller actor current target) db h w o =
      let found =
        find-own user_id (is_user_of seller actor) db.seller_users current w.user_ids h.0 in
      let eq = count-owners admin current.id db.seller_users current w.user_ids found in
      let still =
        find-update_other user_id current.id (with_user_role admin) (has user_id target.id)
          db.seller_users target (λ _. refl) h.2.0 h.3 in
      let eq' =
        count-owners owner target.id _ target
          (IsUnique-update user_id current.id (with_user_role admin) user_id db.seller_users
            (λ _. refl) w.user_ids)
          still in
      let mine = find-holds (is_user_of seller actor) db.seller_users current h.0 in
      let top = h.1 in
      let same = h.2.1 in
      let one = one_at_most db o in
      let before = count-found (has_role_in k owner) (has user_id target.id) _ target still in
      ground arith
  apply-IsOwned (add_admin actor pa) db h w o = o
  apply-IsOwned (first_admin actor pa) db h w o = o
  apply-IsOwned (change_admin actor id target role) db h w o = o
  apply-IsOwned (remove_admin actor id target) db h w o = o
  apply-IsOwned (open_seller s su) db h w o =
      let same = h.2 in
      let is_owner = ap (λ r. is_role r owner) h.3 in
      let new : (s.id == k) ≡ true → find_by (has (λ x. x.id) k) db.sellers ≡ none =
        λ e. subst (λ n. find_by (has (λ x. x.id) n) db.sellers ≡ none) ((==_iff s.id k).0 e) h.1 in
      ground arith
  apply-IsOwned (approve id) db h w o =
      o ∙ ap (λ b. if b then 1 else 0) (sym (status-exists k id db.sellers))
  apply-IsOwned nothing db h w o = o

-- There is a super_admin.
unfoldable pub IsStaffed : Db → Type 0
unfolding count_platform_role
IsStaffed db = 1 ≤ count_platform_role super_admin db

apply-IsStaffed :
    (e : Edit) (db : Db) → Allowed e db → IsSound db → IsStaffed db → IsStaffed (apply e db)
unfolding apply Allowed IsStaffed count_platform_role count_by
apply-IsStaffed (add_user actor su) db h w o = o
apply-IsStaffed (change_user seller actor id target role) db h w o = o
apply-IsStaffed (remove_user seller actor id target) db h w o = o
apply-IsStaffed (transfer_owner seller actor current target) db h w o = o
apply-IsStaffed (add_admin actor pa) db h w o = ground (arith, o)
apply-IsStaffed (first_admin actor pa) db h w o = ground (arith, o)
apply-IsStaffed (change_admin actor id target role) db h w o =
    let eq =
      count-update admin_id id (with_admin_role role) (has_role super_admin) db.platform_admins
        target w.admin_ids h.1 in
    let spare = h.2 in ground arith
apply-IsStaffed (remove_admin actor id target) db h w o =
    let eq =
      count-delete admin_id id (has_role super_admin) db.platform_admins target w.admin_ids h.1 in
    let spare = h.2 in ground arith
apply-IsStaffed (open_seller s su) db h w o = o
apply-IsStaffed (approve id) db h w o = o
apply-IsStaffed nothing db h w o = o

-- After any calls on empty tables, whatever they answered, a seller has exactly one owner, and an id
-- that is no seller has none.
pub run-IsOwned :
    (cs : List Call) (seller : ℕ)
    → count_seller_role seller owner (run empty_db cs)
      ≡ (if is_some (find_by (has (λ s. s.id) seller) (run empty_db cs).sellers) then 1 else 0)
unfolding IsOwned count_seller_role count_by find_by
run-IsOwned cs seller =
    (run-keeps (IsOwned seller) (apply-IsOwned seller) empty_db cs (empty-IsSound, refl)).1

-- Once there is a super_admin, there is one after any further calls.
pub run-IsStaffed :
    (cs cs' : List Call)
    → 1 ≤ count_platform_role super_admin (run empty_db cs)
    → 1 ≤ count_platform_role super_admin (run (run empty_db cs) cs')
unfolding IsStaffed
run-IsStaffed cs cs' h =
    let sound = (run-keeps (λ _. Unit {0}) (λ _ _ _ _ _. tt) empty_db cs (empty-IsSound, tt)).0 in
    (run-keeps IsStaffed apply-IsStaffed (run empty_db cs) cs' (sound, h)).1
