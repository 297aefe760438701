-- ===== src/Auth/Calls.antt =====
-- What the calls of backend/services/auth/internal/app do to the tables when they do not fail.
use ec_test.Base.{
  ℕ, ◌≡◌, refl, sym, subst, ◌≤◌, Bool, true, false, not, ◌&&◌, Option, none, some, ◌==◌, ==_iff,
  leb, arith,
}
use ec_test.Base.Tx.{Result, ok, err, pure, throw}
use ec_test.Base.Ensures.{
  Ensures, Ensures-pure, Ensures-err, Ensures-after_guard, Ensures-after_if, Ensures-after_branch,
  Ensures-if,
}
use ec_test.Auth.Domain.{
  RoleName, no_role, owner, admin, member, super_admin, support, other_role, is_role,
  seller_at_least, seller_valid, SellerUser,
}
use ec_test.Base.Rows.{find_by, update_by, has, find-holds}
use ec_test.Auth.Store.{
  Db, Error, is_some, create_seller_user, update_user_role, delete_user, count_seller_role,
  fits_user, check_seller_role, is_user_of, with_user_role, insufficient_role, conflict,
  target_not_found, last_owner,
}
use ec_test.Auth.Team.{
  require_seller_role, add_seller_user_tx, update_seller_user_role_tx, remove_seller_user_tx,
  require_owner, transfer_ownership_tx, ranks, target_of, guard_last_owner, new_user,
}
use ec_test.Auth.Edits.{
  add_user, change_user, remove_user, transfer_owner, apply, Allowed, IsEdited, IsOwner, IsSpare,
  IsNewUser, nothing,
}

pub is_some-none : {A : Type 0} (o : Option A) → not (is_some o) ≡ true → o ≡ none
is_some-none none h = refl
is_some-none (some a) h = ground arith

-- Only an owner ranks as high as an owner.
owner_ranks : (r : RoleName) → seller_at_least r owner ≡ true → is_role r owner ≡ true
owner_ranks no_role h = ground arith
owner_ranks owner h = refl
owner_ranks admin h = ground arith
owner_ranks member h = ground arith
owner_ranks super_admin h = ground arith
owner_ranks support h = ground arith
owner_ranks (other_role n) h = ground arith

pub and_true : (a b : Bool) → (a && b) ≡ true → (a ≡ true) × (b ≡ true)
and_true true b h = (refl, h)
and_true false b h = ground arith

ranks-owner : (r : RoleName) → ranks r owner ≡ true → is_role r owner ≡ true
ranks-owner r h = owner_ranks r (and_true _ _ h).1

pub fits_user-IsNewUser : (su : SellerUser) (db : Db) → fits_user su db ≡ true → IsNewUser su db
fits_user-IsNewUser su db h =
    let parts = and_true _ _ (and_true _ _ (and_true _ _ h).0).0 in
    (is_some-none _ parts.0, is_some-none _ parts.1)

pub not_both : (a b : Bool) → not (a && b) ≡ true → a ≡ true → b ≡ false
not_both a b h k = ground (arith, h, k)

module _ (seller actor : ℕ) where
  -- The tests at the head of the calls.
  abbrev owner_test : Db → Bool
  unfolding check_seller_role
  owner_test db = ranks (check_seller_role seller actor db) owner

  pub add_seller_user_tx-IsEdited :
      (user : ℕ) (role : RoleName) (id : ℕ) (db : Db)
      → is_role role owner ≡ false
      → Ensures (λ _ db'. IsEdited db db') (add_seller_user_tx seller actor user role id db)
  unfolding add_seller_user_tx require_seller_role create_seller_user apply Allowed IsOwner
  add_seller_user_tx-IsEdited user role id db h =
      Ensures-after_guard (owner_test db) insufficient_role db _ λ c.
        Ensures-after_guard (not (is_some (find_by (is_user_of seller user) db.seller_users)))
          conflict db _
          λ d.
            Ensures-after_branch (fits_user (new_user seller actor id user role) db) _ _ _
              (λ e. Ensures-pure _ _ record {
                edit = add_user actor (new_user seller actor id user role);
                is_allowed = (ranks-owner _ c, fits_user-IsNewUser _ db e, h);
                is_applied = refl;
              })
              (λ _. Ensures-err _)

  -- After the lookup of the target.
  target_of-Ensures :
      {B : Type 0} {Q : B → Db → Type 0} (o : Option SellerUser) (db : Db)
      (k : SellerUser → Db → Result Error (B × Db))
      → ((t : SellerUser) → o ≡ some t → t.seller_id ≡ seller → Ensures Q (k t db))
      → Ensures Q (elim (target_of seller actor o db) [ ok (a, s') ↦ k a s' | err e ↦ err e ])
  target_of-Ensures none db k h = Ensures-err _
  target_of-Ensures (some t) db k h =
      Ensures-after_if (t.seller_id == seller) (pure t) (throw target_not_found) db k
        (λ c. h t refl ((==_iff t.seller_id seller).0 c)) (λ _. Ensures-err _)

  -- The safeguard of the last owner passes.
  abbrev spare_test : SellerUser → Db → Bool
  unfolding count_seller_role
  spare_test t db = not (is_role t.role owner && leb (count_seller_role seller owner db) 1)

  spare_test-IsSpare :
      (t : SellerUser) (db : Db) → t.seller_id ≡ seller → spare_test t db ≡ true → IsSpare t db
  unfolding count_seller_role
  spare_test-IsSpare t db e h o =
      subst (λ s. 2 ≤ count_seller_role s owner db) (sym e)
        (let c = not_both _ _ h o in ground (arith, c))

  pub update_seller_user_role_tx-IsEdited :
      (id : ℕ) (role : RoleName) (db : Db)
      → is_role role owner ≡ false
      → Ensures (λ _ db'. IsEdited db db') (update_seller_user_role_tx seller actor id role db)
  unfolding update_seller_user_role_tx require_seller_role guard_last_owner update_user_role apply
      Allowed IsOwner
  update_seller_user_role_tx-IsEdited id role db h =
      Ensures-after_guard (owner_test db) insufficient_role db _ λ c.
        target_of-Ensures (find_by (has (λ x. x.id) id) db.seller_users) db _ λ t found same.
          Ensures-if _ _ db (t.auth0_user_id == actor) (λ _. Ensures-err _)
            λ _.
              Ensures-if _ _ db (is_role t.role role)
                (λ _.
                  Ensures-pure _ _ record { edit = nothing; is_allowed = tt; is_applied = refl })
                λ _. Ensures-after_guard (spare_test t db) last_owner db _ λ g.
                  Ensures-after_branch (is_some (find_by (has (λ x. x.id) id) db.seller_users)) _ _
                    _
                    (λ _.
                      Ensures-after_branch (seller_valid role) _ _ _
                        (λ _. Ensures-pure _ _ record {
                          edit = change_user seller actor id t role;
                          is_allowed =
                              (ranks-owner _ c, (found, same), spare_test-IsSpare t db same g, h);
                          is_applied = refl;
                        })
                        (λ _. Ensures-err _))
                    (λ _. Ensures-err _)

  pub remove_seller_user_tx-IsEdited :
      (id : ℕ) (db : Db)
      → Ensures (λ _ db'. IsEdited db db') (remove_seller_user_tx seller actor id db)
  unfolding remove_seller_user_tx require_seller_role guard_last_owner delete_user apply Allowed
      IsOwner
  remove_seller_user_tx-IsEdited id db =
      Ensures-after_guard (owner_test db) insufficient_role db _ λ c.
        target_of-Ensures (find_by (has (λ x. x.id) id) db.seller_users) db _ λ t found same.
          Ensures-if _ _ db (t.auth0_user_id == actor) (λ _. Ensures-err _)
            λ _. Ensures-after_guard (spare_test t db) last_owner db _ λ g.
              Ensures-after_branch (is_some (find_by (has (λ x. x.id) id) db.seller_users)) _ _ _
                (λ _. Ensures-pure _ _ record {
                  edit = remove_user seller actor id t;
                  is_allowed = (ranks-owner _ c, (found, same), spare_test-IsSpare t db same g);
                  is_applied = refl;
                })
                (λ _. Ensures-err _)

  own_id :
      (id : ℕ) (t : SellerUser) (db : Db)
      → find_by (has (λ x. x.id) id) db.seller_users ≡ some t
      → find_by (has (λ x. x.id) t.id) db.seller_users ≡ some t
  own_id id t db h =
      subst (λ n. find_by (has (λ x. x.id) n) db.seller_users ≡ some t)
        (sym ((==_iff t.id id).0 (find-holds (has (λ x. x.id) id) db.seller_users t h))) h

  require_owner-Ensures :
      {B : Type 0} {Q : B → Db → Type 0} (o : Option SellerUser) (db : Db)
      (k : SellerUser → Db → Result Error (B × Db))
      → ((t : SellerUser) → o ≡ some t → is_role t.role owner ≡ true → Ensures Q (k t db))
      → Ensures Q (elim (require_owner seller actor o db) [ ok (a, s') ↦ k a s' | err e ↦ err e ])
  require_owner-Ensures none db k h = Ensures-err _
  require_owner-Ensures (some t) db k h =
      Ensures-after_if (is_role t.role owner) (pure t) (throw insufficient_role) db k
        (λ c. h t refl c) (λ _. Ensures-err _)

  pub transfer_ownership_tx-IsEdited :
      (id : ℕ) (db : Db)
      → Ensures (λ _ db'. IsEdited db db') (transfer_ownership_tx seller actor id db)
  unfolding transfer_ownership_tx update_user_role apply Allowed IsOwner
  transfer_ownership_tx-IsEdited id db =
      require_owner-Ensures (find_by (is_user_of seller actor) db.seller_users) db _ λ m mine top.
        target_of-Ensures (find_by (has (λ x. x.id) id) db.seller_users) db _ λ t found same.
          Ensures-if _ _ db (t.id == m.id) (λ _. Ensures-err _)
            λ other.
              Ensures-after_branch (is_some (find_by (has (λ x. x.id) m.id) db.seller_users)) _ _ _
                (λ _.
                  Ensures-after_branch
                    (is_some (
                      find_by (has (λ x. x.id) t.id)
                        (update_by (has (λ x. x.id) m.id) (with_user_role admin) db.seller_users)))
                    _ _ _
                    (λ _. Ensures-pure _ _ record {
                      edit = transfer_owner seller actor m t;
                      is_allowed = (mine, top, (own_id id t db found, same), other);
                      is_applied = refl;
                    })
                    (λ _. Ensures-err _))
                (λ _. Ensures-err _)
