-- ===== src/Auth/AuditUsers.antt =====
-- The audit log against the users of sellers (backend/services/auth/internal/app/rbac.go).
use ec_test.Base.{
  ℕ, ◌≡◌, refl, sym, ap, subst, ◌∙◌, Bool, true, false, ◌&&◌, none, some, List, ◌==◌, if◌then◌else◌,
  ==_iff, arith,
}
use ec_test.Auth.Domain.{RoleName, no_role, owner, admin, SellerUser}
use ec_test.Base.Rows.{
  find_by, update_by, delete_by, has, IsUnique, IsUnique-update, find-update_other, find-holds,
  find-own,
}
use ec_test.Base.Lookups.{lookup-update, lookup-delete}
use ec_test.Auth.Store.{Db, is_some, check_seller_role, role_of_user, with_user_role, is_user_of}
use ec_test.Auth.Edits.{
  Edit, add_user, change_user, remove_user, transfer_owner, add_admin, first_admin, change_admin,
  remove_admin, open_seller, approve, nothing, apply, Allowed,
}
use ec_test.Auth.Calls.{and_true}
use ec_test.Auth.Sound.{IsSound, user_id, run-keeps, empty-IsSound, status-exists}
use ec_test.Auth.History.{Call, run, empty_db}
use ec_test.Auth.Audit.{is_about, logged_role}

-- Users of a seller that exists.
module _ (seller user : ℕ) (before : RoleName) where
  unfoldable IsLoggedUser : Db → Type 0
  unfolding check_seller_role
  IsLoggedUser db =
      (is_some (find_by (has (λ x. x.id) seller) db.sellers) ≡ true)
      × (check_seller_role seller user db
          ≡ logged_role (is_about seller user) before db.rbac_audit_log)

  fixes_user : (x : SellerUser) → is_user_of seller user x ≡ true → x.auth0_user_id ≡ user
  fixes_user x h = (==_iff x.auth0_user_id user).0 (and_true (x.seller_id == seller) _ h).1

  abbrev auth0_user : SellerUser → ℕ
  auth0_user su = su.auth0_user_id

  -- The role of the user after a change, or a removal, of a target, whose entry names its seller.
  user_changed :
      (s id : ℕ) (t : SellerUser) (role : RoleName) (xs : List SellerUser)
      → IsUnique user_id xs
      → IsUnique auth0_user xs
      → find_by (has user_id id) xs ≡ some t
      → t.seller_id ≡ s
      → role_of_user
          (find_by (is_user_of seller user) (update_by (has user_id id) (with_user_role role) xs))
        ≡ (if s == seller && t.auth0_user_id == user
            then role
            else role_of_user (find_by (is_user_of seller user) xs))
  user_changed s id t role xs u v h e =
      lookup-update user_id id (is_user_of seller user) auth0_user user fixes_user role_of_user
        (with_user_role role) xs t (λ _. refl) u v h
      ∙ ap
          (λ n.
            if n == seller && t.auth0_user_id == user
            then role
            else role_of_user (find_by (is_user_of seller user) xs))
          e

  user_removed :
      (s id : ℕ) (t : SellerUser) (xs : List SellerUser)
      → IsUnique user_id xs
      → IsUnique auth0_user xs
      → find_by (has user_id id) xs ≡ some t
      → t.seller_id ≡ s
      → role_of_user (find_by (is_user_of seller user) (delete_by (has user_id id) xs)) ≡ (
          if s == seller && t.auth0_user_id == user
          then no_role
          else role_of_user (find_by (is_user_of seller user) xs))
  user_removed s id t xs u v h e =
      lookup-delete user_id id (is_user_of seller user) auth0_user user fixes_user role_of_user xs t
        u v h
      ∙ ap
          (λ n.
            if n == seller && t.auth0_user_id == user
            then no_role
            else role_of_user (find_by (is_user_of seller user) xs))
          e

  other_users :
      (xs : List SellerUser) (a b : SellerUser) (p p' : SellerUser → Bool) (c : Bool)
      → IsUnique auth0_user xs
      → find_by p xs ≡ some a
      → find_by p' xs ≡ some b
      → (b.id == a.id) ≡ false
      → (c && a.auth0_user_id == user) && (c && b.auth0_user_id == user) ≡ false
  other_users xs a b p p' c v h k d =
      let one = find-own auth0_user p xs a v h in
      let two = find-own auth0_user p' xs b v k in
      let same : a.auth0_user_id ≡ b.auth0_user_id → some a ≡ some b =
        λ e. sym one ∙ ap (λ n. find_by (has auth0_user n) xs) e ∙ two in
      let id_of : a.auth0_user_id ≡ b.auth0_user_id → a.id ≡ b.id =
        λ e. ap (λ o. elim o [ none ↦ 0 | some x ↦ x.id ]) (same e) in
      ground arith

  swapped :
      (a b : Bool) (x y z : RoleName)
      → (a && b) ≡ false
      → (if b then y else if a then x else z) ≡ (if a then x else if b then y else z)
  swapped true true x y z h = ground (arith, h)
  swapped true false x y z h = refl
  swapped false b x y z h = refl

  apply-IsLoggedUser :
      (e : Edit) (db : Db) → Allowed e db → IsSound db → IsLoggedUser db → IsLoggedUser (apply e db)
  unfolding apply Allowed IsLoggedUser check_seller_role logged_role find_by
  apply-IsLoggedUser (add_user actor su) db h w o = (
    o.0,
    elim (is_user_of seller user su)
        as (λ b.
          role_of_user (if b then some su else find_by (is_user_of seller user) db.seller_users)
          ≡ (if b then su.role else logged_role (is_about seller user) before db.rbac_audit_log)) [
            | true ↦ refl
            | false ↦ o.1
          ],
  )
  apply-IsLoggedUser (change_user s actor id target role) db h w o = (
    o.0,
    user_changed s id target role db.seller_users w.user_ids w.users h.1.0 h.1.1
        ∙ ap (λ r. if s == seller && target.auth0_user_id == user then role else r) o.1,
  )
  apply-IsLoggedUser (remove_user s actor id target) db h w o = (
    o.0,
    user_removed s id target db.seller_users w.user_ids w.users h.1.0 h.1.1
        ∙ ap (λ r. if s == seller && target.auth0_user_id == user then no_role else r) o.1,
  )
  apply-IsLoggedUser (transfer_owner s actor current target) db h w o =
      let mine = find-own user_id (is_user_of s actor) db.seller_users current w.user_ids h.0 in
      let in_seller =
        (==_iff current.seller_id s).0
          (and_true _ (current.auth0_user_id == actor)
            (find-holds (is_user_of s actor) db.seller_users current h.0)).0 in
      let still =
        find-update_other user_id current.id (with_user_role admin) (has user_id target.id)
          db.seller_users target (λ _. refl) h.2.0 h.3 in
      (
        o.0,
        user_changed s target.id target owner
              (update_by (has user_id current.id) (with_user_role admin) db.seller_users)
              (IsUnique-update user_id current.id (with_user_role admin) user_id db.seller_users
                (λ _. refl) w.user_ids)
              (IsUnique-update user_id current.id (with_user_role admin) auth0_user db.seller_users
                (λ _. refl) w.users)
              still h.2.1
            ∙ ap (λ r. if s == seller && target.auth0_user_id == user then owner else r)
                (user_changed s current.id current admin db.seller_users w.user_ids w.users mine
                    in_seller
                  ∙ ap (λ r. if s == seller && current.auth0_user_id == user then admin else r) o.1)
            ∙ swapped (s == seller && current.auth0_user_id == user)
                (s == seller && target.auth0_user_id == user) admin owner
                (logged_role (is_about seller user) before db.rbac_audit_log)
                (other_users db.seller_users current target (is_user_of s actor)
                  (has user_id target.id) (s == seller) w.users h.0 h.2.0 h.3),
      )
  apply-IsLoggedUser (add_admin actor pa) db h w o = o
  apply-IsLoggedUser (first_admin actor pa) db h w o = o
  apply-IsLoggedUser (change_admin actor id target role) db h w o = o
  apply-IsLoggedUser (remove_admin actor id target) db h w o = o
  apply-IsLoggedUser (open_seller s su) db h w o =
      let new : (s.id == seller) ≡ true → find_by (has (λ x. x.id) seller) db.sellers ≡ none = λ e.
        subst (λ n. find_by (has (λ x. x.id) n) db.sellers ≡ none) ((==_iff s.id seller).0 e) h.1 in
      let same = h.2 in
      let exists = o.0 in
      let elsewhere : (su.seller_id == seller) ≡ false = ground arith in
      let role = o.1 in
      (
        ground arith,
        ap
              (λ b. role_of_user (
                if b && su.auth0_user_id == user
                then some su
                else find_by (is_user_of seller user) db.seller_users))
              elsewhere
            ∙ role,
      )
  apply-IsLoggedUser (approve id) db h w o = (status-exists seller id db.sellers ∙ o.0, o.1)
  apply-IsLoggedUser nothing db h w o = o

-- Once a seller exists, and a user of it has the role that the audit log says, where `before` is the
-- role that the user has before all entries, this is so after any further calls.
pub run-IsLoggedUser :
    (cs cs' : List Call) (seller user : ℕ) (before : RoleName)
    → is_some (find_by (has (λ s. s.id) seller) (run empty_db cs).sellers) ≡ true
    → check_seller_role seller user (run empty_db cs)
      ≡ logged_role (is_about seller user) before (run empty_db cs).rbac_audit_log
    → check_seller_role seller user (run (run empty_db cs) cs')
      ≡ logged_role (is_about seller user) before (run (run empty_db cs) cs').rbac_audit_log
unfolding IsLoggedUser check_seller_role
run-IsLoggedUser cs cs' seller user before h k =
    let sound = (run-keeps (λ _. Unit {0}) (λ _ _ _ _ _. tt) empty_db cs (empty-IsSound, tt)).0 in
    (run-keeps (IsLoggedUser seller user before) (apply-IsLoggedUser seller user before)
      (run empty_db cs) cs' (sound, (h, k))).1.1
