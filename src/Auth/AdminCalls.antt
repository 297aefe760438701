-- ===== src/Auth/AdminCalls.antt =====
-- What the calls on platform admins and on sellers do to the tables when they do not fail
-- (backend/services/auth/internal/app/rbac.go and identity.go).
use ec_test.Base.{
  ℕ, ◌≡◌, refl, ◌∷◌, Bool, true, false, not, ◌&&◌, ◌||◌, Option, none, some, ◌==◌, leb, arith,
}
use ec_test.Base.Tx.{Result, ok, err}
use ec_test.Base.Ensures.{
  Ensures, Ensures-pure, Ensures-err, Ensures-after_guard, Ensures-after_branch, Ensures-if,
  Ensures-branch,
}
use ec_test.Auth.Domain.{
  RoleName, no_role, owner, admin, member, super_admin, support, other_role, is_role, Seller,
  seller_pending, platform_at_least, platform_valid, PlatformAdmin,
}
use ec_test.Base.Rows.{find_by, has}
use ec_test.Auth.Store.{
  Db, Error, is_some, fits_user, has_slug, insufficient_role, conflict, last_super_admin,
  statement_failed, with_status, create_seller_row, create_seller_user,
}
use ec_test.Auth.Team.{new_user}
use ec_test.Auth.Admins.{
  ranks_platform, check_platform_role, count_platform_role, fits_admin, new_admin, some_admin,
  create_platform_admin, require_platform_admin, guard_last_super_admin, update_admin_role,
  delete_admin, grant_platform_admin_tx, update_platform_admin_role_tx, revoke_platform_admin_tx,
  bootstrap_tx,
}
use ec_test.Auth.Identity.{create_seller_tx}
use ec_test.Auth.Edits.{
  add_admin, first_admin, change_admin, remove_admin, open_seller, nothing, apply, Allowed,
  IsEdited, IsSuperAdmin, IsNewAdmin, IsSpareAdmin,
}
use ec_test.Auth.Calls.{is_some-none, and_true, not_both, fits_user-IsNewUser}

-- Only a super_admin ranks as high as a super_admin.
super_admin_ranks :
    (r : RoleName) → platform_at_least r super_admin ≡ true → is_role r super_admin ≡ true
super_admin_ranks no_role h = ground arith
super_admin_ranks owner h = ground arith
super_admin_ranks admin h = ground arith
super_admin_ranks member h = ground arith
super_admin_ranks super_admin h = refl
super_admin_ranks support h = ground arith
super_admin_ranks (other_role n) h = ground arith

ranks-super_admin :
    (r : RoleName) → ranks_platform r super_admin ≡ true → is_role r super_admin ≡ true
ranks-super_admin r h = super_admin_ranks r (and_true _ _ h).1

fits_admin-IsNewAdmin : (pa : PlatformAdmin) (db : Db) → fits_admin pa db ≡ true → IsNewAdmin pa db
fits_admin-IsNewAdmin pa db h =
    let parts = and_true _ _ (and_true _ _ h).0 in (is_some-none _ parts.0, is_some-none _ parts.1)

module _ (actor : ℕ) where
  abbrev super_admin_test : Db → Bool
  unfolding check_platform_role
  super_admin_test db = ranks_platform (check_platform_role actor db) super_admin

  pub grant_platform_admin_tx-IsEdited :
      (user : ℕ) (role : RoleName) (id : ℕ) (db : Db)
      → Ensures (λ _ db'. IsEdited db db') (grant_platform_admin_tx actor user role id db)
  unfolding grant_platform_admin_tx require_platform_admin create_platform_admin apply Allowed
      IsSuperAdmin
  grant_platform_admin_tx-IsEdited user role id db =
      Ensures-after_guard (super_admin_test db) insufficient_role db _ λ c.
        Ensures-after_guard
          (not (is_some (find_by (has (λ x. x.auth0_user_id) user) db.platform_admins))) conflict db
          _
          λ _.
            Ensures-after_branch (fits_admin (new_admin id user role) db) _ _ _
              (λ e. Ensures-pure _ _ record {
                edit = add_admin actor (new_admin id user role);
                is_allowed = (ranks-super_admin _ c, fits_admin-IsNewAdmin _ db e);
                is_applied = refl;
              })
              (λ _. Ensures-err _)

  some_admin-Ensures :
      {B : Type 0} {Q : B → Db → Type 0} (o : Option PlatformAdmin) (db : Db)
      (k : PlatformAdmin → Db → Result Error (B × Db))
      → ((t : PlatformAdmin) → o ≡ some t → Ensures Q (k t db))
      → Ensures Q (elim (some_admin actor o db) [ ok (a, s') ↦ k a s' | err e ↦ err e ])
  some_admin-Ensures none db k h = Ensures-err _
  some_admin-Ensures (some t) db k h = h t refl

  -- The safeguard of the last super_admin passes.
  abbrev spare_test : PlatformAdmin → Db → Bool
  unfolding count_platform_role
  spare_test t db = not (is_role t.role super_admin && leb (count_platform_role super_admin db) 1)

  spare_test-IsSpareAdmin :
      (t : PlatformAdmin) (db : Db) → spare_test t db ≡ true → IsSpareAdmin t db
  unfolding count_platform_role
  spare_test-IsSpareAdmin t db h o = let c = not_both _ _ h o in ground (arith, c)

  pub update_platform_admin_role_tx-IsEdited :
      (id : ℕ) (role : RoleName) (db : Db)
      → Ensures (λ _ db'. IsEdited db db') (update_platform_admin_role_tx actor id role db)
  unfolding update_platform_admin_role_tx require_platform_admin guard_last_super_admin
      update_admin_role apply Allowed IsSuperAdmin
  update_platform_admin_role_tx-IsEdited id role db =
      Ensures-after_guard (super_admin_test db) insufficient_role db _ λ c.
        some_admin-Ensures (find_by (has (λ x. x.id) id) db.platform_admins) db _ λ t found.
          Ensures-if _ _ db (t.auth0_user_id == actor) (λ _. Ensures-err _)
            λ _.
              Ensures-if _ _ db (is_role t.role role)
                (λ _.
                  Ensures-pure _ _ record { edit = nothing; is_allowed = tt; is_applied = refl })
                λ _. Ensures-after_guard (spare_test t db) last_super_admin db _ λ g.
                  Ensures-after_branch (is_some (find_by (has (λ x. x.id) id) db.platform_admins)) _
                    _ _
                    (λ _.
                      Ensures-after_branch (platform_valid role) _ _ _
                        (λ _. Ensures-pure _ _ record {
                          edit = change_admin actor id t role;
                          is_allowed =
                              (ranks-super_admin _ c, found, spare_test-IsSpareAdmin t db g);
                          is_applied = refl;
                        })
                        (λ _. Ensures-err _))
                    (λ _. Ensures-err _)

  pub revoke_platform_admin_tx-IsEdited :
      (id : ℕ) (db : Db) → Ensures (λ _ db'. IsEdited db db') (revoke_platform_admin_tx actor id db)
  unfolding revoke_platform_admin_tx require_platform_admin guard_last_super_admin delete_admin
      apply Allowed IsSuperAdmin
  revoke_platform_admin_tx-IsEdited id db =
      Ensures-after_guard (super_admin_test db) insufficient_role db _ λ c.
        some_admin-Ensures (find_by (has (λ x. x.id) id) db.platform_admins) db _ λ t found.
          Ensures-if _ _ db (t.auth0_user_id == actor) (λ _. Ensures-err _)
            λ _. Ensures-after_guard (spare_test t db) last_super_admin db _ λ g.
              Ensures-after_branch (is_some (find_by (has (λ x. x.id) id) db.platform_admins)) _ _ _
                (λ _. Ensures-pure _ _ record {
                  edit = remove_admin actor id t;
                  is_allowed = (ranks-super_admin _ c, found, spare_test-IsSpareAdmin t db g);
                  is_applied = refl;
                })
                (λ _. Ensures-err _)

pub bootstrap_tx-IsEdited :
    (bootstrap user id : ℕ) (db : Db)
    → count_platform_role super_admin db ≡ 0
    → Ensures (λ _ db'. IsEdited db db') (bootstrap_tx bootstrap user id db)
unfolding bootstrap_tx create_platform_admin apply Allowed
bootstrap_tx-IsEdited bootstrap user id db h =
    Ensures-after_branch (fits_admin (new_admin id user super_admin) db) _ _ _
      (λ e. Ensures-pure _ _ record {
        edit = first_admin bootstrap (new_admin id user super_admin);
        is_allowed = (h, fits_admin-IsNewAdmin (new_admin id user super_admin) db e, refl);
        is_applied = refl;
      })
      (λ _. Ensures-err _)

or_none : {A : Type 0} (o : Option A) (b : Bool) → (is_some o || b) ≡ false → o ≡ none
or_none none b h = refl
or_none (some a) b h = ground arith

pub create_seller_tx-IsEdited :
    (caller : ℕ) (seller : Seller) (user_id : ℕ) (db : Db)
    → Ensures (λ _ db'. IsEdited db db') (create_seller_tx caller seller user_id db)
unfolding create_seller_tx create_seller_row create_seller_user apply Allowed
create_seller_tx-IsEdited caller seller user_id db =
    Ensures-after_branch
      (is_some (find_by (has (λ x. x.id) seller.id) db.sellers)
        || is_some (find_by (has_slug seller.slug) db.sellers))
      (err statement_failed) _ _ (λ _. Ensures-err _)
      λ c.
        Ensures-branch
          (fits_user (new_user seller.id caller user_id caller owner)
            record db { sellers = with_status seller_pending seller ∷ db.sellers })
          _ _
          (λ e. Ensures-pure _ _ record {
            edit =
                open_seller (with_status seller_pending seller)
                  (new_user seller.id caller user_id caller owner);
            is_allowed = (
              fits_user-IsNewUser (new_user seller.id caller user_id caller owner)
                  record db { sellers = with_status seller_pending seller ∷ db.sellers } e,
              or_none _ _ c,
              refl,
              refl,
            );
            is_applied = refl;
          })
          (λ _. Ensures-err _)
