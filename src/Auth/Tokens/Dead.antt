-- ===== src/Auth/Tokens/Dead.antt =====
-- Rows of seller_api_tokens that are revoked, under the UPDATE of
-- backend/services/auth/internal/adapter/postgres/api_token_repo.go that revokes one.
use ec_test.Base.{
  ℕ, ◌≡◌, refl, sym, subst, inl, inr, Bool, true, false, not, ◌&&◌, some, List, [], ◌∷◌, ◌==◌,
  if◌then◌else◌, arith, Bool-cases,
}
use ec_test.Base.Rows.{find_by, count_by, update_by, has}
use ec_test.Auth.Store.{is_some}
use ec_test.Auth.Tokens.Store.{SellerApiToken, revoked_by}

-- A row with this id that is not revoked.
abbrev pub live : ℕ → SellerApiToken → Bool
live id t = t.id == id && not (is_some t.revoked_at)

-- The id is taken, and only by revoked rows.
unfoldable pub IsDead : ℕ → List SellerApiToken → Type 0
unfolding find_by count_by
IsDead id ts = (is_some (find_by (has (λ x. x.id) id) ts) ≡ true) × (count_by (live id) ts ≡ 0)

-- The row with this id is revoked by an actor.
module _ (id actor now : ℕ) where
  abbrev mark : SellerApiToken → SellerApiToken
  mark = revoked_by actor now

  unfoldable pub after : List SellerApiToken → List SellerApiToken
  after ts = update_by (has (λ x. x.id) id) mark ts

  id-mark : (t : SellerApiToken) → (mark t).id ≡ t.id
  id-mark t =
      elim (is_some t.revoked_at)
        as (λ b.
          (if b then t else record t { revoked_at = some now; revoked_by_auth0_user_id = actor }).id
          ≡ t.id) [ true ↦ refl | false ↦ refl ]

  is_some-mark : (t : SellerApiToken) → is_some (mark t).revoked_at ≡ true
  is_some-mark t = elim (Bool-cases (is_some t.revoked_at)) [
    | inl c ↦
        subst
          (λ b.
            is_some
              (if b then t else record t {
                revoked_at = some now;
                revoked_by_auth0_user_id = actor;
              }).revoked_at
            ≡ true)
          (sym c) c
    | inr c ↦
        subst
          (λ b.
            is_some
              (if b then t else record t {
                revoked_at = some now;
                revoked_by_auth0_user_id = actor;
              }).revoked_at
            ≡ true)
          (sym c) refl
  ]

  pub count-revoked : (ts : List SellerApiToken) → count_by (live id) (after ts) ≡ 0
  unfolding count_by update_by after
  count-revoked [] = refl
  count-revoked (t ∷ ts) =
      let marked = is_some-mark t in
      elim (Bool-cases (t.id == id)) [
        | inl c ↦ ground (arith, count-revoked ts)
        | inr c ↦ ground (arith, count-revoked ts)
      ]

  module _ (k : ℕ) where
    pub count-later :
        (ts : List SellerApiToken) → count_by (live k) ts ≡ 0 → count_by (live k) (after ts) ≡ 0
    unfolding count_by update_by after
    count-later [] h = refl
    count-later (t ∷ ts) h =
        let marked = is_some-mark t in
        elim (Bool-cases (t.id == id)) [
          | inl c ↦ ground (arith, count-later ts)
          | inr c ↦ ground (arith, count-later ts)
        ]

    pub find-later :
        (ts : List SellerApiToken)
        → is_some (find_by (has (λ x. x.id) k) (after ts))
          ≡ is_some (find_by (has (λ x. x.id) k) ts)
    unfolding find_by update_by after
    find-later [] = refl
    find-later (t ∷ ts) =
        let same = id-mark t in
        elim (Bool-cases (t.id == id)) [
          | inl c ↦ ground (arith, find-later ts)
          | inr c ↦ ground (arith, find-later ts)
        ]
