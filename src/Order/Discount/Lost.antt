-- ===== src/Order/Discount/Lost.antt =====
-- How much of a discount `DistributeDiscount` loses by rounding and by its cap.
use ec_test.Base.{ℕ, ◌+◌, ◌≤◌, ◌<◌, ◌≡◌, List, [], ◌∷◌}
use ec_test.Base.Int.{ℤ}
use ec_test.Order.Discount.Exact.{sum, yen}

-- No share above its subtotal.
abbrev Under : List ℕ → List ℕ → Type 0
Under [] out = Unit {0}
Under (s ∷ ss) [] = Unit {0}
Under (s ∷ ss) (o ∷ out) = (o ≤ s) × Under ss out

-- Amounts that are not negative, whose sum misses `d` by less than `n`.
abbrev pub MissesBelow : ℕ → ℕ → List ℤ → Type 0
MissesBelow d n out = (xs : List ℕ) × ((out ≡ yen xs) × (d < sum xs + n))
