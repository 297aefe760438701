-- ===== src/Auth/Tokens/Draws.antt =====
-- How the generator of tokens uses the random bytes
-- (backend/services/auth/internal/app/credential.go, `generateBase62`).
use ec_test.Base.{
  ℕ, zero, suc, ◌≡◌, subst, ◌<◌, ◌≤◌, refl, Bool, true, false, not, ◌&&◌, ◌||◌, Option, none, some,
  List, [], ◌∷◌, ◌==◌, ==_iff, leb, ltb, if◌then◌else◌, Bool-cases, inl, inr, arith,
}
use ec_test.Base.Rows.{count_by}
use ec_test.Auth.Tokens.Text.{Text, Read, generate_base62}

-- Digits and letters, as bytes.
abbrev pub is_alphanumeric : ℕ → Bool
is_alphanumeric c = leb 48 c && leb c 57 || leb 65 c && leb c 90 || leb 97 c && leb c 122

abbrev pub is_one : ℕ → Option Text → Bool
is_one c (some (d ∷ [])) = d == c
is_one c _ = false

unfoldable pub below : ℕ → List ℕ
below zero = []
below (suc n) = n ∷ below n

-- Of the 256 bytes that can be drawn, how many make the character `c`.
unfoldable pub draws : ℕ → ℕ
unfolding generate_base62 count_by below
draws c = count_by (λ b. is_one c (generate_base62 1 (some (b ∷ []) ∷ []))) (below 256)

unfoldable every : List ℕ → (ℕ → Bool) → Bool
every [] p = true
every (c ∷ cs) p = if p c then every cs p else false

every-below : (p : ℕ → Bool) (c m : ℕ) → c < m → every (below m) p ≡ true → p c ≡ true
unfolding every below
every-below p c zero h k = absurd (omega (arith, h))
every-below p c (suc m) h k = elim (Bool-cases (p m)) [
  | inl here ↦ elim (Bool-cases (m == c)) [
    | inl same ↦ subst (λ x. p x ≡ true) ((==_iff m c).0 same) here
    | inr other ↦ every-below p c m (ground (arith, h, other)) (ground (arith, here, k))
  ]
  | inr gone ↦ absurd_by (ground (arith, gone, k))
]
  where
    absurd_by : {A : Type 0} → true ≡ false → A
    absurd_by {A} e = subst (λ b. elim b as (λ _. Type 0) [ true ↦ Unit {0} | false ↦ A ]) e tt

abbrev four_times : ℕ → Bool
unfolding draws
four_times c = not (is_alphanumeric c) || draws c == 4

table : every (below 123) four_times ≡ true
unfolding every below draws
table = refl

-- Each digit and each letter, upper and lower case, is what the generator makes of exactly four of
-- the 256 values of a random byte, so that all are equally likely.
pub draws-alphanumeric : (c : ℕ) → is_alphanumeric c ≡ true → draws c ≡ 4
unfolding four_times
draws-alphanumeric c h =
    let four = every-below four_times c 123 (ground (arith, h)) table in
    (==_iff (draws c) 4).0 (second (is_alphanumeric c) (draws c == 4) four h)
  where
    second : (a b : Bool) → (not a || b) ≡ true → a ≡ true → b ≡ true
    second a b h k = ground (arith, k)

-- A byte below 248.
abbrev pub is_accepted : ℕ → Bool
is_accepted b = ltb b 248

-- Reads that succeed, each with a byte that is accepted.
abbrev pub AreUseful : List Read → Type 0
AreUseful [] = Unit {0}
AreUseful (none ∷ reads) = ⊥
AreUseful (some buf ∷ reads) = (1 ≤ count_by is_accepted buf) × AreUseful reads
