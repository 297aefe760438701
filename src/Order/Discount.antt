-- ===== src/Order/Discount.antt =====
-- Splitting a discount over the orders of a cart: `DistributeDiscount` and
-- `DistributeSellerDiscount` of backend/services/order/internal/domain/discount.go, on int64.
pub mod Exact
pub mod Total
pub mod Lost
use ec_test.Base.{ℕ, Bool, true, false, ◌||◌, List, [], ◌∷◌, ◌==◌, length, replicate, if◌then◌else◌}
use ec_test.Base.Int.{ℤ, pos, pos_part, leb_ℤ, ltb_ℤ, add64, sub64, mul64, quot64}

-- The sum of the subtotals above zero, from `total`.
unfoldable pub sum_positive : ℤ → List ℤ → ℤ
sum_positive total [] = total
sum_positive total (s ∷ ss) = sum_positive (if ltb_ℤ (pos 0) s then add64 total s else total) ss

-- The share of one subtotal: rounded down.
unfoldable pub share_of : ℤ → ℤ → ℤ → ℤ
share_of discount total s =
    if leb_ℤ s (pos 0) then pos 0 else quot64 (mul64 discount s) (pos_part total)

unfoldable pub floor_shares : ℤ → ℤ → List ℤ → List ℤ
unfolding share_of
floor_shares discount total [] = []
floor_shares discount total (s ∷ ss) = share_of discount total s ∷ floor_shares discount total ss

-- The variable `assigned` after the loop over the subtotals.
unfoldable pub assigned_shares : ℤ → ℤ → ℤ → List ℤ → ℤ
unfolding share_of
assigned_shares assigned discount total [] = assigned
assigned_shares assigned discount total (s ∷ ss) =
    assigned_shares
      (if leb_ℤ s (pos 0) then assigned else add64 assigned (share_of discount total s)) discount
      total ss

unfoldable pub has_positive : List ℤ → Bool
has_positive [] = false
has_positive (s ∷ ss) = ltb_ℤ (pos 0) s || has_positive ss

-- The loop from the end: the last slot with a subtotal above zero takes the remainder.
unfoldable pub give_last : ℤ → List ℤ → List ℤ → List ℤ
unfolding has_positive
give_last remainder [] out = out
give_last remainder (s ∷ ss) [] = []
give_last remainder (s ∷ ss) (o ∷ out) =
    let rest = give_last remainder ss out in
    if has_positive ss
    then o ∷ rest
    else if ltb_ℤ (pos 0) s
    then add64 o remainder ∷ out
    else o ∷ out

-- The last loop: no share above its subtotal.
unfoldable pub cap_shares : List ℤ → List ℤ → List ℤ
cap_shares [] out = out
cap_shares (s ∷ ss) [] = []
cap_shares (s ∷ ss) (o ∷ out) = (if ltb_ℤ s o then s else o) ∷ cap_shares ss out

-- `DistributeDiscount`
unfoldable pub distribute_discount : ℤ → List ℤ → List ℤ
unfolding sum_positive floor_shares assigned_shares give_last cap_shares sub64
distribute_discount discount subtotals =
    let total = sum_positive (pos 0) subtotals in
    let shares = floor_shares discount total subtotals in
    let remainder = sub64 discount (assigned_shares (pos 0) discount total subtotals) in
    if leb_ℤ discount (pos 0) || length subtotals == 0
    then replicate (length subtotals) (pos 0)
    else if leb_ℤ total (pos 0)
    then replicate (length subtotals) (pos 0)
    else cap_shares subtotals
        (if ltb_ℤ (pos 0) remainder then give_last remainder subtotals shares else shares)

-- The subtotals of the slots of one seller.
unfoldable pub matching : List ℕ → List ℤ → ℕ → List ℤ
matching [] subtotals target = []
matching (i ∷ ids) [] target = []
matching (i ∷ ids) (s ∷ ss) target =
    let rest = matching ids ss target in if i == target then s ∷ rest else rest

-- The shares of the matching slots, put back at their places.
unfoldable pub splice : List ℕ → ℕ → List ℤ → List ℤ
splice [] target shares = []
splice (i ∷ ids) target [] = pos 0 ∷ splice ids target []
splice (i ∷ ids) target (x ∷ shares) =
    let taken = splice ids target shares in
    let skipped = splice ids target (x ∷ shares) in
    if i == target then x ∷ taken else pos 0 ∷ skipped

-- `DistributeSellerDiscount`
unfoldable pub distribute_seller_discount : ℤ → List ℕ → List ℤ → ℕ → List ℤ
unfolding distribute_discount matching splice
distribute_seller_discount discount seller_ids subtotals target =
    if length seller_ids == length subtotals
    then splice seller_ids target
        (distribute_discount discount (matching seller_ids subtotals target))
    else replicate (length subtotals) (pos 0)
