-- ===== src/Order/Discount/Exact.antt =====
-- `DistributeDiscount` on amounts that do not overflow, as a function on the naturals.
use ec_test.Base.{
  ℕ, ◌+◌, ◌-◌, ◌*◌, ◌/◌, ◌^◌, ◌≤◌, ◌<◌, ◌≡◌, refl, ap, ap₂, ◌∙◌, Bool, true, false, List, [], ◌∷◌,
  map, ltb, if◌then◌else◌, arith, Bool-cases, inl, inr,
}
use ec_test.Base.Int.{ℤ, pos, leb_ℤ, ltb_ℤ, add64, quot64, add64_small, mul64_small}
use native.Mathlib.Nat.{div-mul-le_self, le_of_mul-le-mul_right}
use ec_test.Order.Discount.{
  has_positive, give_last, cap_shares, sum_positive, share_of, floor_shares, assigned_shares,
}

unfoldable pub sum : List ℕ → ℕ
sum [] = 0
sum (s ∷ ss) = s + sum ss

-- The amounts of yen below, as int64 values.
abbrev pub yen : List ℕ → List ℤ
yen = map pos

unfoldable pub shares : ℕ → ℕ → List ℕ → List ℕ
shares d t [] = []
shares d t (s ∷ ss) = d * s / t ∷ shares d t ss

unfoldable pub give : ℕ → List ℕ → List ℕ → List ℕ
unfolding sum
give r [] out = out
give r (s ∷ ss) [] = []
give r (s ∷ ss) (o ∷ out) =
    let rest = give r ss out in
    if ltb 0 (sum ss) then o ∷ rest else if ltb 0 s then (o + r) ∷ out else o ∷ out

unfoldable pub cap : List ℕ → List ℕ → List ℕ
cap [] out = out
cap (s ∷ ss) [] = []
cap (s ∷ ss) (o ∷ out) = (if ltb s o then s else o) ∷ cap ss out

-- The split of `d` over subtotals whose sum is above zero.
unfoldable pub split : ℕ → List ℕ → List ℕ
unfolding sum shares give cap
split d ss =
    let floors = shares d (sum ss) ss in
    let r = d - sum floors in cap ss (if ltb 0 r then give r ss floors else floors)

add_positive :
    (acc s : ℕ)
    → acc + s < 2 ^ 63
    → (if ltb_ℤ (pos 0) (pos s) then add64 (pos acc) (pos s) else pos acc) ≡ pos (acc + s)
add_positive acc s h = ground (arith, add64_small acc s)

pub sum_positive_lem :
    (ss : List ℕ) (acc : ℕ)
    → acc + sum ss < 2 ^ 63
    → sum_positive (pos acc) (yen ss) ≡ pos (acc + sum ss)
unfolding sum_positive sum
sum_positive_lem [] acc h = ap pos (omega arith)
sum_positive_lem (s ∷ ss) acc h =
    ap (λ t. sum_positive t (yen ss)) (add_positive acc s (omega arith))
    ∙ sum_positive_lem ss (acc + s) (omega arith)
    ∙ ap pos (omega arith)

nothing_shared : (d t s : ℕ) → 0 < t → s ≡ 0 → d * s / t ≡ 0
nothing_shared d t s p h = rw h (omega arith)

share_of_lem :
    (d t s : ℕ) → 0 < t → d * s < 2 ^ 63 → share_of (pos d) (pos t) (pos s) ≡ pos (d * s / t)
unfolding share_of quot64
share_of_lem d t s p h = elim (Bool-cases (leb_ℤ (pos s) (pos 0))) [
  | inl none ↦ rw (none, nothing_shared d t s p (ground arith)) refl
  | inr some_yen ↦ rw (some_yen, mul64_small d s h) refl
]

-- No product of the discount and a subtotal overflows.
abbrev pub NoOverflow : ℕ → List ℕ → Type 0
NoOverflow d [] = Unit {0}
NoOverflow d (s ∷ ss) = (d * s < 2 ^ 63) × NoOverflow d ss

pub floor_shares_lem :
    (d t : ℕ) (ss : List ℕ)
    → 0 < t
    → NoOverflow d ss
    → floor_shares (pos d) (pos t) (yen ss) ≡ yen (shares d t ss)
unfolding floor_shares shares
floor_shares_lem d t [] p h = refl
floor_shares_lem d t (s ∷ ss) p h =
    ap₂ ◌∷◌ (share_of_lem d t s p h.0) (floor_shares_lem d t ss p h.1)

add_share :
    (acc d t s : ℕ)
    → 0 < t
    → d * s < 2 ^ 63
    → acc + d * s / t < 2 ^ 63
    → (if leb_ℤ (pos s) (pos 0)
        then pos acc
        else add64 (pos acc) (share_of (pos d) (pos t) (pos s)))
      ≡ pos (acc + d * s / t)
add_share acc d t s p h k = elim (Bool-cases (leb_ℤ (pos s) (pos 0))) [
  | inl none ↦ rw (none, nothing_shared d t s p (ground arith)) (ap pos (omega arith))
  | inr some_yen ↦ rw (some_yen, share_of_lem d t s p h) (add64_small acc (d * s / t) k)
]

pub assigned_shares_lem :
    (d t : ℕ) (ss : List ℕ) (acc : ℕ)
    → 0 < t
    → NoOverflow d ss
    → acc + sum (shares d t ss) < 2 ^ 63
    → assigned_shares (pos acc) (pos d) (pos t) (yen ss) ≡ pos (acc + sum (shares d t ss))
unfolding assigned_shares sum shares
assigned_shares_lem d t [] acc p h k = ap pos (omega arith)
assigned_shares_lem d t (s ∷ ss) acc p h k =
    ap (λ a. assigned_shares a (pos d) (pos t) (yen ss)) (add_share acc d t s p h.0 (omega arith))
    ∙ assigned_shares_lem d t ss (acc + d * s / t) p h.1 (omega arith)
    ∙ ap pos (omega arith)

pub yen_if :
    (c : Bool) (xs ys : List ℕ) → (if c then yen xs else yen ys) ≡ yen (if c then xs else ys)
yen_if true xs ys = refl
yen_if false xs ys = refl

has_positive_lem : (ss : List ℕ) → has_positive (yen ss) ≡ ltb 0 (sum ss)
unfolding has_positive sum
has_positive_lem [] = refl
has_positive_lem (s ∷ ss) = rw (has_positive_lem ss) (ground arith)

pub test_yen : (a b : ℕ) → ltb_ℤ (pos a) (pos b) ≡ ltb a b
test_yen a b = ground arith

pub give_last_lem :
    (r : ℕ) (ss out : List ℕ)
    → sum out + r < 2 ^ 63
    → give_last (pos r) (yen ss) (yen out) ≡ yen (give r ss out)
unfolding give_last give sum
give_last_lem r [] out h = refl
give_last_lem r (s ∷ ss) [] h = refl
give_last_lem r (s ∷ ss) (o ∷ out) h =
    rw
      (
        has_positive_lem ss,
        test_yen 0 s,
        give_last_lem r ss out (omega arith),
        add64_small o r (omega arith),
      )
      (elim (Bool-cases (ltb 0 (sum ss))) [
        | inl more ↦ rw more refl
        | inr last ↦ elim (Bool-cases (ltb 0 s)) [
          | inl some_yen ↦ rw (last, some_yen) refl
          | inr none ↦ rw (last, none) refl
        ]
      ])

pub cap_shares_lem : (ss out : List ℕ) → cap_shares (yen ss) (yen out) ≡ yen (cap ss out)
unfolding cap_shares cap
cap_shares_lem [] out = refl
cap_shares_lem (s ∷ ss) [] = refl
cap_shares_lem (s ∷ ss) (o ∷ out) = ap₂ ◌∷◌ (ground arith) (cap_shares_lem ss out)

-- Rounding down loses, never gains.
shares_times : (d t : ℕ) (ss : List ℕ) → 0 < t → sum (shares d t ss) * t ≤ d * sum ss
unfolding sum shares
shares_times d t [] p = omega arith
shares_times d t (s ∷ ss) p =
    let floor = div-mul-le_self (d * s) t in let ih = shares_times d t ss p in omega arith

pub shares_le : (d : ℕ) (ss : List ℕ) → 0 < sum ss → sum (shares d (sum ss) ss) ≤ d
shares_le d ss p = le_of_mul-le-mul_right (shares_times d (sum ss) ss p) p

pub give_le : (r : ℕ) (ss out : List ℕ) → sum (give r ss out) ≤ sum out + r
unfolding give sum
give_le r [] out = omega arith
give_le r (s ∷ ss) [] = omega arith
give_le r (s ∷ ss) (o ∷ out) = let rest = give_le r ss out in ground arith

pub cap_le : (ss out : List ℕ) → sum (cap ss out) ≤ sum out
unfolding cap sum
cap_le [] out = omega arith
cap_le (s ∷ ss) [] = omega arith
cap_le (s ∷ ss) (o ∷ out) = let rest = cap_le ss out in ground arith
