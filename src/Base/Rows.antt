-- ===== src/Base/Rows.antt =====
-- Rows of a table, found by their columns: what SELECT, UPDATE, DELETE and COUNT do to the rows in
-- backend/services/auth/internal/adapter/postgres and in order_repo.go and payout_repo.go of
-- backend/services/order/internal/adapter/postgres.
use Prim.Native.Nat.{ℕ, ◌+◌, ◌≤◌}
use mathlib.Core.Path.{◌≡◌, refl, sym, ap, subst}
use mathlib.Core.Logic.{inl, inr}
use mathlib.Core.Bool.{Bool, true, false}
use mathlib.Core.Option.{Option, none, some}
use mathlib.Core.List.{List, [], ◌∷◌}
use native.Mathlib.Omega.{arith}
use ec_test.Base.Tests.{◌==◌, ==_iff, if◌then◌else◌, Bool-cases}

module _ {A : Type 0} where
  unfoldable pub find_by : (A → Bool) → List A → Option A
  find_by p [] = none
  find_by p (x ∷ xs) = if p x then some x else find_by p xs

  unfoldable pub count_by : (A → Bool) → List A → ℕ
  count_by p [] = 0
  count_by p (x ∷ xs) = (if p x then 1 else 0) + count_by p xs

  unfoldable pub update_by : (A → Bool) → (A → A) → List A → List A
  update_by p f [] = []
  update_by p f (x ∷ xs) = (if p x then f x else x) ∷ update_by p f xs

  unfoldable pub delete_by : (A → Bool) → List A → List A
  delete_by p [] = []
  delete_by p (x ∷ xs) = let rest = delete_by p xs in if p x then rest else x ∷ rest

  -- A column whose values are all different.
  unfoldable pub IsUnique : (A → ℕ) → List A → Type 0
  unfolding find_by
  IsUnique f [] = Unit {0}
  IsUnique f (x ∷ xs) = (find_by (λ y. f y == f x) xs ≡ none) × IsUnique f xs

  abbrev pub has : (A → ℕ) → ℕ → A → Bool
  has f n x = f x == n

  pub update-absent :
      (p : A → Bool) (f : A → A) (xs : List A) → find_by p xs ≡ none → update_by p f xs ≡ xs
  unfolding update_by find_by
  update-absent p f [] h = refl
  update-absent p f (x ∷ xs) h = ground (arith, update-absent p f xs)

  pub delete-absent : (p : A → Bool) (xs : List A) → find_by p xs ≡ none → delete_by p xs ≡ xs
  unfolding delete_by find_by
  delete-absent p [] h = refl
  delete-absent p (x ∷ xs) h = ground (arith, delete-absent p xs)

  -- A row that is not there has no column either.
  pub absent-one :
      (p q : A → Bool) (xs : List A) (a : A)
      → find_by p xs ≡ none
      → find_by q xs ≡ some a
      → p a ≡ false
  unfolding find_by
  absent-one p q [] a h k = ground arith
  absent-one p q (x ∷ xs) a h k = ground (arith, absent-one p q xs a)

  pub find-holds : (p : A → Bool) (xs : List A) (a : A) → find_by p xs ≡ some a → p a ≡ true
  unfolding find_by
  find-holds p [] a h = ground arith
  find-holds p (x ∷ xs) a h = ground (arith, find-holds p xs a)

  pub count-found :
      (p q : A → Bool) (xs : List A) (a : A)
      → find_by q xs ≡ some a
      → p a ≡ true
      → 1 ≤ count_by p xs
  unfolding find_by count_by
  count-found p q [] a h c = ground arith
  count-found p q (x ∷ xs) a h c = ground (arith, count-found p q xs a)

  -- The rows below the one with this value do not have it.
  pub rest-absent :
      (f : A → ℕ) (n : ℕ) (x : A) (xs : List A)
      → IsUnique f (x ∷ xs)
      → (f x == n) ≡ true
      → find_by (has f n) xs ≡ none
  unfolding IsUnique
  rest-absent f n x xs u c = subst (λ m. find_by (has f m) xs ≡ none) ((==_iff (f x) n).0 c) u.0

  -- A row is found again by a unique column.
  pub find-own :
      (f : A → ℕ) (p : A → Bool) (xs : List A) (a : A)
      → IsUnique f xs
      → find_by p xs ≡ some a
      → find_by (has f (f a)) xs ≡ some a
  unfolding find_by IsUnique
  find-own f p [] a u h = ground arith
  find-own f p (x ∷ xs) a u h = elim (Bool-cases (p x)) [
    | inl c ↦
        let same : some x ≡ some a = ground (arith, c, h) in
        let eq = ap (λ o. elim o [ none ↦ f x | some b ↦ f b ]) same in ground arith
    | inr c ↦
        let found : find_by (has f (f a)) xs ≡ some a =
          find-own f p xs a u.1 (ground (arith, c, h)) in
        let other : (f x == f a) ≡ true → find_by (has f (f a)) xs ≡ none =
          rest-absent f (f a) x xs u in
        ground arith
  ]

  -- An UPDATE of the row with this value.
  module _ (f : A → ℕ) (n : ℕ) (g : A → A) where
    pub count-update :
        (p : A → Bool) (xs : List A) (a : A)
        → IsUnique f xs
        → find_by (has f n) xs ≡ some a
        → count_by p (update_by (has f n) g xs) + (if p a then 1 else 0)
          ≡ count_by p xs + (if p (g a) then 1 else 0)
    unfolding count_by update_by find_by IsUnique
    count-update p [] a u h = ground arith
    count-update p (x ∷ xs) a u h = elim (Bool-cases (f x == n)) [
      | inl c ↦ let same = update-absent (has f n) g xs (rest-absent f n x xs u c) in ground arith
      | inr c ↦ ground (arith, count-update p xs a u.1)
    ]

    -- What is found of a column that the UPDATE keeps.
    pub find-update_other :
        (q : A → Bool) (xs : List A) (a : A)
        → ((x : A) → q (g x) ≡ q x)
        → find_by q xs ≡ some a
        → (f a == n) ≡ false
        → find_by q (update_by (has f n) g xs) ≡ some a
    unfolding update_by find_by
    find-update_other q [] a e h c = ground arith
    find-update_other q (x ∷ xs) a e h c =
        let same = e x in ground (arith, find-update_other q xs a e)

    pub find-update_none :
        (q : A → Bool) (xs : List A)
        → ((x : A) → q (g x) ≡ q x)
        → find_by q xs ≡ none
        → find_by q (update_by (has f n) g xs) ≡ none
    unfolding update_by find_by
    find-update_none q [] e h = refl
    find-update_none q (x ∷ xs) e h = let same = e x in ground (arith, find-update_none q xs e)

    pub IsUnique-update :
        (k : A → ℕ) (xs : List A)
        → ((x : A) → k (g x) ≡ k x)
        → IsUnique k xs
        → IsUnique k (update_by (has f n) g xs)
    unfolding update_by find_by IsUnique
    IsUnique-update k [] e u = tt
    IsUnique-update k (x ∷ xs) e u =
        let kept : k (if has f n x then g x else x) ≡ k x =
          elim (has f n x) as (λ c. k (if c then g x else x) ≡ k x) [ true ↦ e x | false ↦ refl ] in
        (
          subst (λ m. find_by (λ y. k y == m) (update_by (has f n) g xs) ≡ none) (sym kept)
              (find-update_none (λ y. k y == k x) xs (λ y. ap (λ m. m == k x) (e y)) u.0),
          IsUnique-update k xs e u.1,
        )

  -- A DELETE of the row with this value.
  module _ (f : A → ℕ) (n : ℕ) where
    pub count-delete :
        (p : A → Bool) (xs : List A) (a : A)
        → IsUnique f xs
        → find_by (has f n) xs ≡ some a
        → count_by p (delete_by (has f n) xs) + (if p a then 1 else 0) ≡ count_by p xs
    unfolding count_by delete_by find_by IsUnique
    count-delete p [] a u h = ground arith
    count-delete p (x ∷ xs) a u h = elim (Bool-cases (f x == n)) [
      | inl c ↦ let same = delete-absent (has f n) xs (rest-absent f n x xs u c) in ground arith
      | inr c ↦ ground (arith, count-delete p xs a u.1)
    ]

    pub find-delete_none :
        (q : A → Bool) (xs : List A)
        → find_by q xs ≡ none
        → find_by q (delete_by (has f n) xs) ≡ none
    unfolding delete_by find_by
    find-delete_none q [] h = refl
    find-delete_none q (x ∷ xs) h = ground (arith, find-delete_none q xs)

    pub IsUnique-delete :
        (k : A → ℕ) (xs : List A) → IsUnique k xs → IsUnique k (delete_by (has f n) xs)
    unfolding delete_by find_by IsUnique
    IsUnique-delete k [] u = tt
    IsUnique-delete k (x ∷ xs) u =
        let rest = IsUnique-delete k xs u.1 in
        elim (has f n x)
          as (λ c. IsUnique k (if c then delete_by (has f n) xs else x ∷ delete_by (has f n) xs)) [
            | true ↦ rest
            | false ↦ (find-delete_none (λ y. k y == k x) xs u.0, rest)
          ]
