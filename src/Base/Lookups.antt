-- ===== src/Base/Lookups.antt =====
-- What a SELECT finds after an UPDATE or a DELETE of one row with a unique id, in
-- backend/services/auth/internal/adapter/postgres and payout_repo.go of
-- backend/services/order/internal/adapter/postgres.
use Prim.Native.Nat.{ℕ}
use mathlib.Core.Path.{◌≡◌, refl, sym, ap, ◌∙◌}
use mathlib.Core.Logic.{inl, inr}
use mathlib.Core.Bool.{Bool, true, false}
use mathlib.Core.Option.{Option, none, some}
use mathlib.Core.List.{List, [], ◌∷◌}
use native.Mathlib.Omega.{arith}
use ec_test.Base.Tests.{◌==◌, if◌then◌else◌, Bool-cases}
use ec_test.Base.Rows.{
  find_by, update_by, delete_by, has, IsUnique, update-absent, delete-absent, absent-one,
  rest-absent,
}

-- The row `t` has the id `n`, which is unique; `q` fixes the other unique column.
module _ {A : Type 0} (f : A → ℕ) (n : ℕ) (q : A → Bool) where
  module _ (g : A → A) (same : (x : A) → q (g x) ≡ q x) where
    pub find-update_rest :
        (xs : List A) (t : A)
        → IsUnique f xs
        → find_by (has f n) xs ≡ some t
        → q t ≡ false
        → find_by q (update_by (has f n) g xs) ≡ find_by q xs
    unfolding find_by update_by IsUnique
    find-update_rest [] t u h c = refl
    find-update_rest (x ∷ xs) t u h c = elim (Bool-cases (f x == n)) [
      | inl d ↦
          let eq = update-absent (has f n) g xs (rest-absent f n x xs u d) in
          let keeps = same x in ground arith
      | inr d ↦ ground (arith, find-update_rest xs t u.1)
    ]

  pub find-delete_rest :
      (xs : List A) (t : A)
      → IsUnique f xs
      → find_by (has f n) xs ≡ some t
      → q t ≡ false
      → find_by q (delete_by (has f n) xs) ≡ find_by q xs
  unfolding find_by delete_by IsUnique
  find-delete_rest [] t u h c = refl
  find-delete_rest (x ∷ xs) t u h c = elim (Bool-cases (f x == n)) [
    | inl d ↦ let eq = delete-absent (has f n) xs (rest-absent f n x xs u d) in ground arith
    | inr d ↦ ground (arith, find-delete_rest xs t u.1)
  ]

  module _ (k : A → ℕ) (m : ℕ) (fixes : (x : A) → q x ≡ true → k x ≡ m) where
    -- A row above another with the same value is impossible.
    not_above :
        (x : A) (xs : List A) (t : A)
        → IsUnique k (x ∷ xs)
        → find_by (has f n) xs ≡ some t
        → q t ≡ true
        → q x ≡ false
    unfolding IsUnique
    not_above x xs t u h c = elim (Bool-cases (q x)) [
      | inr d ↦ d
      | inl d ↦
          let alone = absent-one (λ y. k y == k x) (has f n) xs t u.0 h in
          let one = fixes x d in let two = fixes t c in ground arith
    ]

    none_below :
        (xs : List A) (x : A)
        → find_by (λ y. k y == k x) xs ≡ none
        → q x ≡ true
        → find_by q xs ≡ none
    unfolding find_by
    none_below [] x h c = refl
    none_below (y ∷ ys) x h c =
        let one = fixes x c in let two = fixes y in ground (arith, none_below ys x)

    pub find-update_this :
        (g : A → A) (xs : List A) (t : A)
        → ((x : A) → q (g x) ≡ q x)
        → IsUnique f xs
        → IsUnique k xs
        → find_by (has f n) xs ≡ some t
        → q t ≡ true
        → find_by q (update_by (has f n) g xs) ≡ some (g t)
    unfolding find_by update_by IsUnique
    find-update_this g [] t same u v h c = ground arith
    find-update_this g (x ∷ xs) t same u v h c = elim (Bool-cases (f x == n)) [
      | inl d ↦
          let is_t : some x ≡ some t = ground (arith, d, h) in let keeps = same x in ground arith
      | inr d ↦
          let found : find_by (has f n) xs ≡ some t = ground (arith, d, h) in
          let above = not_above x xs t v found c in
          let rest = find-update_this g xs t same u.1 v.1 found c in ground arith
    ]

    pub find-delete_this :
        (xs : List A) (t : A)
        → IsUnique f xs
        → IsUnique k xs
        → find_by (has f n) xs ≡ some t
        → q t ≡ true
        → find_by q (delete_by (has f n) xs) ≡ none
    unfolding find_by delete_by IsUnique
    find-delete_this [] t u v h c = ground arith
    find-delete_this (x ∷ xs) t u v h c = elim (Bool-cases (f x == n)) [
      | inl d ↦
          let eq = delete-absent (has f n) xs (rest-absent f n x xs u d) in
          let is_t : some x ≡ some t = ground (arith, d, h) in
          let below = none_below xs x v.0 (ground arith) in ground arith
      | inr d ↦
          let found : find_by (has f n) xs ≡ some t = ground (arith, d, h) in
          let above = not_above x xs t v found c in
          let rest = find-delete_this xs t u.1 v.1 found c in ground arith
    ]

    -- What is read of the row that is found.
    pub lookup-update :
        {R : Type 0} (r : Option A → R) (g : A → A) (xs : List A) (t : A)
        → ((x : A) → q (g x) ≡ q x)
        → IsUnique f xs
        → IsUnique k xs
        → find_by (has f n) xs ≡ some t
        → r (find_by q (update_by (has f n) g xs))
          ≡ (if q t then r (some (g t)) else r (find_by q xs))
    lookup-update r g xs t same u v h = elim (Bool-cases (q t)) [
      | inl c ↦
          ap r (find-update_this g xs t same u v h c)
          ∙ sym (ap (λ b. if b then r (some (g t)) else r (find_by q xs)) c)
      | inr c ↦
          ap r (find-update_rest g same xs t u h c)
          ∙ sym (ap (λ b. if b then r (some (g t)) else r (find_by q xs)) c)
    ]

    pub lookup-delete :
        {R : Type 0} (r : Option A → R) (xs : List A) (t : A)
        → IsUnique f xs
        → IsUnique k xs
        → find_by (has f n) xs ≡ some t
        → r (find_by q (delete_by (has f n) xs)) ≡ (if q t then r none else r (find_by q xs))
    lookup-delete r xs t u v h = elim (Bool-cases (q t)) [
      | inl c ↦
          ap r (find-delete_this xs t u v h c)
          ∙ sym (ap (λ b. if b then r none else r (find_by q xs)) c)
      | inr c ↦
          ap r (find-delete_rest xs t u h c)
          ∙ sym (ap (λ b. if b then r none else r (find_by q xs)) c)
    ]
