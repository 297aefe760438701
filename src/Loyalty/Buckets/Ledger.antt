-- ===== src/Loyalty/Buckets/Ledger.antt =====
-- When the check before an expiration pass succeeds (`rebuildEarnBuckets`,
-- `verifyBucketInvariant`).
use ec_test.Base.{
  ℕ, ◌%◌, ◌^◌, Bool, ◌&&◌, ◌≡◌, subst, ◌↔◌, true, false, List, [], ◌∷◌, ◌++◌, arith, ◌==◌,
  Bool-cases, ==_iff, inl, inr, if◌then◌else◌,
}
use ec_test.Base.Int.{
  ℤ, pos, ◌+ℤ◌, ◌-ℤ◌, ◌≤ℤ◌, ◌≈ℤ◌, neg_ℤ, ltb_ℤ, leb_ℤ, int_laws, ltb_ℤ→lt, ltb_ℤ→le, leb_ℤ→le,
  le→ltb_ℤ, eq→eqb_ℤ, add64, Wraps, Wraps-self, Wraps-same, add64-Wraps, IsInt64, add64-IsInt64,
  pos_part, eqb_ℤ, le→neg_part,
}
use ec_test.Loyalty.Domain.{
  Transaction, TransactionType, earn, redeem, refund, reverse_earn, adjust, expire,
}
use ec_test.Loyalty.Buckets.{
  EarnBucket, consume_fifo, mark_expired, new_bucket, replay_as, rebuild_from, rebuild_earn_buckets,
  is_platform_credit, add_buckets, add_credits, verify_bucket_invariant,
}
use ec_test.Loyalty.Buckets.Sums.{IsFunded, drain-Drained, bucket_sum, add_buckets-Wraps}

-- The sum of the rows.
unfoldable pub total : List Transaction → ℤ
total [] = pos 0
total (t ∷ ts) = t.amount +ℤ total ts

-- The amounts above zero that make no bucket, without overflow.
abbrev pub platform_credit : TransactionType → ℤ → ℤ
platform_credit refund amount = if ltb_ℤ (pos 0) amount then amount else pos 0
platform_credit adjust amount = if ltb_ℤ (pos 0) amount then amount else pos 0
platform_credit _ amount = pos 0

unfoldable pub platform_credits : List Transaction → ℤ
platform_credits [] = pos 0
platform_credits (t ∷ ts) = platform_credit t.type t.amount +ℤ platform_credits ts

add_above-Wraps :
    (c : Bool) (x w a : ℤ)
    → Wraps w a
    → Wraps (if c then add64 w x else w) (a +ℤ (if c then x else pos 0))
add_above-Wraps true x w a h = add64-Wraps w x a x h (Wraps-self x)
add_above-Wraps false x w a h = Wraps-same w a (a +ℤ pos 0) h (omega int_laws)

add_credit-Wraps :
    (k : TransactionType) (x w a : ℤ)
    → Wraps w a
    → Wraps
        (if is_platform_credit k && ltb_ℤ (pos 0) x then add64 w x else w)
        (a +ℤ platform_credit k x)
add_credit-Wraps earn x w a h = Wraps-same w a (a +ℤ pos 0) h (omega int_laws)
add_credit-Wraps redeem x w a h = Wraps-same w a (a +ℤ pos 0) h (omega int_laws)
add_credit-Wraps reverse_earn x w a h = Wraps-same w a (a +ℤ pos 0) h (omega int_laws)
add_credit-Wraps expire x w a h = Wraps-same w a (a +ℤ pos 0) h (omega int_laws)
add_credit-Wraps refund x w a h = add_above-Wraps (ltb_ℤ (pos 0) x) x w a h
add_credit-Wraps adjust x w a h = add_above-Wraps (ltb_ℤ (pos 0) x) x w a h

add_credits-Wraps :
    (ts : List Transaction) (w a : ℤ)
    → Wraps w a
    → Wraps (add_credits w ts) (a +ℤ platform_credits ts)
unfolding add_credits platform_credits
add_credits-Wraps [] w a h = Wraps-same w a (a +ℤ pos 0) h (omega int_laws)
add_credits-Wraps (t ∷ ts) w a h =
    Wraps-same _ (a +ℤ platform_credit t.type t.amount +ℤ platform_credits ts) _
      (add_credits-Wraps ts _ (a +ℤ platform_credit t.type t.amount)
        (add_credit-Wraps t.type t.amount w a h))
      (omega int_laws)

-- The bucket that an expire row names holds the amount that it takes.
abbrev pub Covers : List EarnBucket → ℕ → ℤ → Type 0
Covers [] earn_id taken = ⊥
Covers (b ∷ bs) earn_id taken =
    if b.earn_txn_id == earn_id then (taken ≤ℤ b.remaining) else Covers bs earn_id taken

-- The signs of the rows, and the bucket behind an expire row, as the service writes them.
abbrev pub Fits : TransactionType → List EarnBucket → Transaction → Type 0
Fits earn bs t = pos 0 ≤ℤ t.amount
Fits redeem bs t = t.amount ≤ℤ pos 0
Fits reverse_earn bs t = t.amount ≤ℤ pos 0
Fits refund bs t = pos 0 ≤ℤ t.amount
Fits adjust bs t = Unit {0}
Fits expire bs t = (t.amount ≤ℤ pos 0) × Covers bs t.source_id (neg_ℤ t.amount)

abbrev pub IsOrderly : List EarnBucket → List Transaction → Type 0
IsOrderly bs [] = Unit {0}
IsOrderly bs (t ∷ ts) = Fits t.type bs t × IsOrderly (replay_as t.type bs t) ts

-- What the buckets could not give for a row.
abbrev pub unabsorbed : TransactionType → List EarnBucket → Transaction → ℤ
unabsorbed earn bs t = pos 0
unabsorbed redeem bs t = (consume_fifo bs (neg_ℤ t.amount)).1
unabsorbed reverse_earn bs t = (consume_fifo bs (neg_ℤ t.amount)).1
unabsorbed refund bs t = pos 0
unabsorbed adjust bs t =
    if ltb_ℤ t.amount (pos 0) then (consume_fifo bs (neg_ℤ t.amount)).1 else pos 0
unabsorbed expire bs t = pos 0

unfoldable pub leftovers : List EarnBucket → List Transaction → ℤ
leftovers bs [] = pos 0
leftovers bs (t ∷ ts) = unabsorbed t.type bs t +ℤ leftovers (replay_as t.type bs t) ts

-- One row: the buckets and the credits move by the amount of the row and what was left over.
record Replayed (before after : List EarnBucket) (credit amount left : ℤ) : Type 0 where
  conserved : bucket_sum after +ℤ credit ≈ℤ bucket_sum before +ℤ amount +ℤ left
  rest : pos 0 ≤ℤ left
  funded : IsFunded after

consume-Replayed :
    (bs : List EarnBucket) (amount : ℤ)
    → IsFunded bs
    → amount ≤ℤ pos 0
    → Replayed bs
        (consume_fifo bs (neg_ℤ amount)).0
        (pos 0)
        amount
        (consume_fifo bs (neg_ℤ amount)).1
unfolding consume_fifo
consume-Replayed bs amount f p = elim (Bool-cases (leb_ℤ (neg_ℤ amount) (pos 0))) [
  | inl none_due ↦
      let le = leb_ℤ→le (neg_ℤ amount) (pos 0) none_due in
      rw none_due (record { conserved = omega int_laws; rest = omega arith; funded = f })
  | inr due ↦
      let d = drain-Drained bs (neg_ℤ amount) f (omega int_laws) in
      rw due (record { conserved = omega int_laws; rest = d.rest; funded = d.funded })
]

append-Replayed :
    (bs : List EarnBucket) (t : Transaction)
    → IsFunded bs
    → pos 0 ≤ℤ t.amount
    → Replayed bs (bs ++ new_bucket t ∷ []) (pos 0) t.amount (pos 0)
unfolding bucket_sum
append-Replayed [] t f p = record {
  conserved = omega int_laws;
  rest = omega arith;
  funded = (p, tt);
}
append-Replayed (b ∷ bs) t f p =
    let ih = append-Replayed bs t f.1 p in
    record { conserved = omega int_laws; rest = omega arith; funded = (f.0, ih.funded) }

mark-Replayed :
    (bs : List EarnBucket) (earn_id : ℕ) (amount : ℤ)
    → IsFunded bs
    → amount ≤ℤ pos 0
    → Covers bs earn_id (neg_ℤ amount)
    → Replayed bs (mark_expired earn_id amount bs) (pos 0) amount (pos 0)
unfolding bucket_sum mark_expired
mark-Replayed [] earn_id amount f p c = absurd c
mark-Replayed (b ∷ bs) earn_id amount f p c = elim (Bool-cases (b.earn_txn_id == earn_id)) [
  | inl hit ↦
      let covered : neg_ℤ amount ≤ℤ b.remaining = rw hit at c in
      let kept : ltb_ℤ (b.remaining -ℤ neg_ℤ amount) (pos 0) ≡ false =
        le→ltb_ℤ (b.remaining -ℤ neg_ℤ amount) (pos 0) (omega int_laws) in
      rw (hit, kept)
        (record { conserved = omega int_laws; rest = omega arith; funded = (omega int_laws, f.1) })
  | inr miss ↦
      let ih = mark-Replayed bs earn_id amount f.1 p (rw miss at c) in
      rw miss (record { conserved = omega int_laws; rest = omega arith; funded = (f.0, ih.funded) })
]

credit_all : (a : ℤ) → pos 0 ≤ℤ a → (if ltb_ℤ (pos 0) a then a else pos 0) ≈ℤ a
credit_all a h = ground arith

row-Replayed :
    (k : TransactionType) (bs : List EarnBucket) (t : Transaction)
    → IsFunded bs
    → Fits k bs t
    → Replayed bs (replay_as k bs t) (platform_credit k t.amount) t.amount (unabsorbed k bs t)
row-Replayed earn bs t f p = append-Replayed bs t f p
row-Replayed redeem bs t f p = consume-Replayed bs t.amount f p
row-Replayed reverse_earn bs t f p = consume-Replayed bs t.amount f p
row-Replayed expire bs t f p = mark-Replayed bs t.source_id t.amount f p.0 p.1
row-Replayed refund bs t f p =
    let credited = credit_all t.amount p in
    rw (le→ltb_ℤ t.amount (pos 0) p)
      (record { conserved = omega int_laws; rest = omega arith; funded = f })
row-Replayed adjust bs t f p = elim (Bool-cases (ltb_ℤ t.amount (pos 0))) [
  | inl debit ↦
      let lt = ltb_ℤ→lt t.amount (pos 0) debit in
      let not_credit : ltb_ℤ (pos 0) t.amount ≡ false = le→ltb_ℤ (pos 0) t.amount (omega arith) in
      rw (debit, not_credit) (consume-Replayed bs t.amount f (omega arith))
  | inr credit ↦
      let credited = credit_all t.amount (ltb_ℤ→le t.amount (pos 0) credit) in
      rw credit (record { conserved = omega int_laws; rest = omega arith; funded = f })
]

-- A whole ledger.
record Walked (before after : List EarnBucket) (ts : List Transaction) (left : ℤ) : Type 0 where
  conserved : bucket_sum after +ℤ platform_credits ts ≈ℤ bucket_sum before +ℤ total ts +ℤ left
  rest : pos 0 ≤ℤ left

rebuild-Walked :
    (ts : List Transaction) (bs : List EarnBucket)
    → IsFunded bs
    → IsOrderly bs ts
    → Walked bs (rebuild_from bs ts) ts (leftovers bs ts)
unfolding rebuild_from total platform_credits leftovers
rebuild-Walked [] bs f o = record { conserved = omega int_laws; rest = omega arith }
rebuild-Walked (t ∷ ts) bs f o =
    let row = row-Replayed t.type bs t f o.0 in
    let ih = rebuild-Walked ts (replay_as t.type bs t) row.funded o.1 in
    record { conserved = omega int_laws; rest = omega int_laws }

expected_balance-Wraps :
    (bs : List EarnBucket) (ts : List Transaction)
    → Wraps
        (add64 (add_buckets (pos 0) bs) (add_credits (pos 0) ts))
        (bucket_sum bs +ℤ platform_credits ts)
expected_balance-Wraps bs ts =
    Wraps-same _ (pos 0 +ℤ bucket_sum bs +ℤ (pos 0 +ℤ platform_credits ts)) _
      (add64-Wraps _ _ _ _ (add_buckets-Wraps bs (pos 0) (pos 0) (Wraps-self (pos 0)))
        (add_credits-Wraps ts (pos 0) (pos 0) (Wraps-self (pos 0))))
      (omega int_laws)

-- A wrapped sum is the balance exactly if what it is above the balance is 0 on 64 bits.
wrapped-equal :
    (w a balance left : ℤ)
    → Wraps w a
    → IsInt64 w
    → IsInt64 balance
    → a ≈ℤ balance +ℤ left
    → pos 0 ≤ℤ left
    → (eqb_ℤ w balance ≡ true) ↔ (pos_part left % 2 ^ 64 ≡ 0)
wrapped-equal w a balance left h i j e p =
    let equal = h.equal in
    let none_below = le→neg_part left p in
    (λ t. let same = (==_iff _ _).0 t in omega int_laws, λ z. eq→eqb_ℤ w balance (omega int_laws))

-- On a ledger whose rows have the signs that the service writes and whose expire rows name a bucket
-- that holds what they take, and whose sum is the locked balance, an int64: the check before an
-- expiration pass succeeds exactly if what the debits took beyond the earn buckets is 0 modulo 2^64,
-- which up to overflow means that points from refunds or admin credits were never spent.
pub verify_bucket_invariant_iff :
    (txns : List Transaction) (locked_balance : ℤ)
    → IsOrderly [] txns
    → IsInt64 locked_balance
    → locked_balance ≡ total txns
    → (verify_bucket_invariant (rebuild_earn_buckets txns) txns locked_balance ≡ true)
      ↔ (pos_part (leftovers [] txns) % 2 ^ 64 ≡ 0)
unfolding verify_bucket_invariant rebuild_earn_buckets bucket_sum
verify_bucket_invariant_iff txns locked_balance o i e =
    let w = rebuild-Walked txns [] tt o in
    let conserved = w.conserved in
    let rest = w.rest in
    let fits : IsInt64 (total txns) = subst IsInt64 e i in
    rw e (
      wrapped-equal _ _ (total txns) (leftovers [] txns)
        (expected_balance-Wraps (rebuild_earn_buckets txns) txns) (add64-IsInt64 _ _) fits
        (omega int_laws) rest)
