-- ===== src/Loyalty/Buckets/Sums.antt =====
-- What the replay of a ledger conserves (`consumeFIFO`, `rebuildEarnBuckets`,
-- `verifyBucketInvariant`).
use ec_test.Base.{◌≡◌, true, List, [], ◌∷◌, arith, Bool-cases, inl, inr}
use ec_test.Base.Int.{
  ℤ, pos, ◌+ℤ◌, ◌-ℤ◌, ◌≤ℤ◌, ◌≈ℤ◌, ltb_ℤ, leb_ℤ, eqb_ℤ, int_laws, ltb_ℤ→lt, ltb_ℤ→le, leb_ℤ→lt,
  add64, Wraps, Wraps-self, Wraps-same, add64-Wraps,
}
use ec_test.Loyalty.Buckets.{EarnBucket, drain, add_buckets}

-- The sum without overflow.
unfoldable pub bucket_sum : List EarnBucket → ℤ
bucket_sum [] = pos 0
bucket_sum (b ∷ bs) = b.remaining +ℤ bucket_sum bs

pub add_buckets-Wraps :
    (bs : List EarnBucket) (w a : ℤ) → Wraps w a → Wraps (add_buckets w bs) (a +ℤ bucket_sum bs)
unfolding add_buckets bucket_sum
add_buckets-Wraps [] w a h = Wraps-same w a (a +ℤ pos 0) h (omega int_laws)
add_buckets-Wraps (b ∷ bs) w a h =
    let ih =
      add_buckets-Wraps bs (add64 w b.remaining) (a +ℤ b.remaining)
        (add64-Wraps w b.remaining a b.remaining h (Wraps-self b.remaining)) in
    Wraps-same _ (a +ℤ b.remaining +ℤ bucket_sum bs) _ ih (omega int_laws)

-- No bucket is overdrawn.
abbrev pub IsFunded : List EarnBucket → Type 0
IsFunded [] = Unit {0}
IsFunded (b ∷ bs) = (pos 0 ≤ℤ b.remaining) × IsFunded bs

-- Of `amount` the buckets gave all but `left`, and none is overdrawn.
pub record Drained (before after : List EarnBucket) (amount left : ℤ) : Type 0 where
  pub conserved : bucket_sum before ≈ℤ bucket_sum after +ℤ (amount -ℤ left)
  pub rest : pos 0 ≤ℤ left
  pub at_most : left ≤ℤ amount
  pub funded : IsFunded after

self_zero : (r : ℤ) → eqb_ℤ (r -ℤ r) (pos 0) ≡ true
unfolding ◌-ℤ◌
self_zero r = ground arith

pub drain-Drained :
    (bs : List EarnBucket) (r : ℤ)
    → IsFunded bs
    → pos 0 ≤ℤ r
    → Drained bs (drain bs r).0 r (drain bs r).1
unfolding drain bucket_sum
drain-Drained [] r f p = record {
  conserved = omega int_laws;
  rest = p;
  at_most = omega arith;
  funded = tt;
}
drain-Drained (b ∷ bs) r f p = elim (Bool-cases (leb_ℤ b.remaining (pos 0))) [
  | inl empty ↦
      let ih = drain-Drained bs r f.1 p in
      rw empty (record {
        conserved = omega int_laws;
        rest = ih.rest;
        at_most = ih.at_most;
        funded = (f.0, ih.funded);
      })
  | inr some_left ↦ elim (Bool-cases (ltb_ℤ r b.remaining)) [
    | inl covered ↦
        let lt = ltb_ℤ→lt r b.remaining covered in
        rw (some_left, covered, self_zero r)
          (record {
            conserved = omega int_laws;
            rest = omega arith;
            at_most = p;
            funded = (omega int_laws, f.1);
          })
    | inr short ↦
        let le = ltb_ℤ→le r b.remaining short in
        let pos_left = leb_ℤ→lt b.remaining (pos 0) some_left in
        elim (Bool-cases (eqb_ℤ (r -ℤ b.remaining) (pos 0))) [
          | inl exact ↦
              let zero_left : r -ℤ b.remaining ≈ℤ pos 0 = ground arith in
              rw (some_left, short, exact)
                (record {
                  conserved = omega int_laws;
                  rest = omega arith;
                  at_most = p;
                  funded = (omega int_laws, f.1);
                })
          | inr more ↦
              let ih = drain-Drained bs (r -ℤ b.remaining) f.1 (omega int_laws) in
              rw (some_left, short, more)
                (record {
                  conserved = omega int_laws;
                  rest = ih.rest;
                  at_most = omega int_laws;
                  funded = (omega int_laws, ih.funded);
                })
        ]
  ]
]
