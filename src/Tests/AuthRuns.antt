-- ===== src/Tests/AuthRuns.antt =====
-- Runs of the auth service.
use ec_test.Base.{◌≡◌, ◌≤◌, refl, List, [], ◌∷◌, if◌then◌else◌, arith}
use ec_test.Base.Tx.{err}
use ec_test.Auth.Domain.{
  owner, admin, member, support, super_admin, no_role, Seller, seller_pending,
}
use ec_test.Base.Rows.{find_by, count_by, update_by, delete_by, has}
use ec_test.Auth.Store.{check_seller_role, count_seller_role, is_some, internal}
use ec_test.Auth.Team.{add_seller_user}
use ec_test.Auth.Admins.{check_platform_role, count_platform_role}
use ec_test.Auth.Edits.{IsEdited}
use ec_test.Auth.History.{
  Call, add, change, remove, transfer, grant, regrade, revoke, bootstrap, create, empty_db, run,
  step, step-IsEdited,
}
use ec_test.Auth.Owners.{run-IsOwned, run-IsStaffed}
use ec_test.Auth.Audit.{is_about, is_about_admin, logged_role, run-IsLoggedAdmin}
use ec_test.Auth.AuditUsers.{run-IsLoggedUser}

abbrev shop : Seller
shop = record { id = 7; slug = 70; status = seller_pending }

-- User 1 opens the shop, takes on users 2 and 3, and hands it to user 2, who removes user 1.
abbrev handover : List Call
handover =
    create 1 shop 11
    ∷ add 7 1 2 admin 12
    ∷ add 7 1 3 member 13
    ∷ transfer 7 1 12
    ∷ change 7 1 13 admin
    ∷ remove 7 2 11
    ∷ []

handed_over : check_seller_role 7 2 (run empty_db handover) ≡ owner
unfolding run step check_seller_role find_by update_by delete_by
handed_over = refl

-- The call of user 1 after the transfer is refused.
not_promoted : check_seller_role 7 3 (run empty_db handover) ≡ member
unfolding run step check_seller_role find_by update_by delete_by
not_promoted = refl

abbrev opened : List Call
opened = create 1 shop 11 ∷ add 7 1 2 admin 12 ∷ []

-- User 8 is made the first super_admin, and makes user 9 one, who reduces user 8 to support.
abbrev staffing : List Call
staffing = bootstrap 99 8 21 ∷ grant 8 9 super_admin 22 ∷ regrade 9 21 support ∷ []

reduced : check_platform_role 8 (run empty_db staffing) ≡ support
unfolding run step check_platform_role find_by count_by update_by
reduced = refl

-- A user of one seller cannot be added to another: the code answers an internal error.
abbrev other_shop : Seller
other_shop = record { id = 8; slug = 80; status = seller_pending }

taken :
    (add_seller_user 8 4 1 member 15
      (run empty_db (create 1 shop 11 ∷ create 4 other_shop 14 ∷ []))).0
    ≡ err internal
unfolding add_seller_user run step find_by
taken = refl

run-IsOwned_example :
    count_seller_role 7 owner (run empty_db handover)
    ≡ (if is_some (find_by (has (λ s. s.id) 7) (run empty_db handover).sellers) then 1 else 0)
run-IsOwned_example = run-IsOwned handover 7

run-IsStaffed_example :
    1
    ≤ count_platform_role super_admin (run (run empty_db staffing) (revoke 9 21 ∷ revoke 9 22 ∷ []))
unfolding count_platform_role run step find_by count_by update_by
run-IsStaffed_example = run-IsStaffed staffing (revoke 9 21 ∷ revoke 9 22 ∷ []) (omega arith)

run-IsLoggedAdmin_example :
    check_platform_role 8 (run empty_db staffing)
    ≡ logged_role (is_about_admin 8) no_role (run empty_db staffing).rbac_audit_log
run-IsLoggedAdmin_example = run-IsLoggedAdmin staffing 8

run-IsLoggedUser_example :
    check_seller_role 7 1 (run (run empty_db opened) (transfer 7 1 12 ∷ []))
    ≡ logged_role
        (is_about 7 1)
        owner
        (run (run empty_db opened) (transfer 7 1 12 ∷ [])).rbac_audit_log
unfolding run step check_seller_role logged_role find_by
run-IsLoggedUser_example = run-IsLoggedUser opened (transfer 7 1 12 ∷ []) 7 1 owner refl refl

step-IsEdited_example :
    IsEdited (run empty_db opened) (step (run empty_db opened) (transfer 7 1 12))
step-IsEdited_example = step-IsEdited (run empty_db opened) (transfer 7 1 12)
