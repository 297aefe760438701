-- ===== src/Order/Discount/Total.antt =====
-- What the shares of `DistributeDiscount` add up to.
use ec_test.Base.{ℕ, ◌^◌, ◌≤◌, ◌<◌, ◌≡◌, ap, ◌∙◌, List, arith}
use ec_test.Base.Int.{ℤ, pos}
use ec_test.Order.Discount.{assigned_shares, sum_positive}
use ec_test.Order.Discount.Exact.{
  sum, yen, shares, NoOverflow, sum_positive_lem, assigned_shares_lem,
}

-- Amounts that are not negative and add up to at most `d`.
abbrev pub SplitsAtMost : ℕ → List ℤ → Type 0
SplitsAtMost d out = (xs : List ℕ) × ((out ≡ yen xs) × (sum xs ≤ d))

pub sum_positive_total :
    (ss : List ℕ) → sum ss < 2 ^ 63 → sum_positive (pos 0) (yen ss) ≡ pos (sum ss)
sum_positive_total ss h = sum_positive_lem ss 0 (omega arith) ∙ ap pos (omega arith)

pub assigned_shares_total :
    (d t : ℕ) (ss : List ℕ)
    → 0 < t
    → NoOverflow d ss
    → sum (shares d t ss) < 2 ^ 63
    → assigned_shares (pos 0) (pos d) (pos t) (yen ss) ≡ pos (sum (shares d t ss))
assigned_shares_total d t ss p h k =
    assigned_shares_lem d t ss 0 p h (omega arith) ∙ ap pos (omega arith)
