-- ===== src/Inventory/Counts.antt =====
-- What the statements on held stock do to the counts of a SKU
-- (backend/services/inventory/internal/adapter/postgres/inventory_repo.go).
use ec_test.Base.{
  ℕ, ◌≡◌, refl, ap, sym, ◌∙◌, Bool, true, false, ◌&&◌, Option, none, some, ◌==◌, if◌then◌else◌,
  arith, ==_iff, subst, Bool-cases, inl, inr,
}
use ec_test.Base.Int.{ℤ, pos, ◌+ℤ◌, ◌-ℤ◌, ◌≤ℤ◌, ◌<ℤ◌, ◌≈ℤ◌, ltb_ℤ, ltb_ℤ→le, int_laws}
use ec_test.Base.Tx.{Result, ok, err, throw}
use ec_test.Inventory.Store.{
  Db, M, Error, Inventory, insufficient, store_quantities, on_row, fits_int, reserve, release_held,
  confirm,
}

abbrev pub available : ℕ → Db → ℤ
available sku db = elim (db.inventory sku) [ none ↦ pos 0 | some inv ↦ inv.quantity_available ]

abbrev pub held : ℕ → Db → ℤ
held sku db = elim (db.inventory sku) [ none ↦ pos 0 | some inv ↦ inv.quantity_reserved ]

-- No count of this SKU is below zero.
pub record IsStocked (sku : ℕ) (db : Db) : Type 0 where
  pub some_available : pos 0 ≤ℤ available sku db
  pub some_held : pos 0 ≤ℤ held sku db

-- What one call does to the counts of a SKU.
pub record Moved (sku : ℕ) (sold : ℤ) (before after : Db) : Type 0 where
  pub conserved :
      available sku after +ℤ held sku after +ℤ sold ≈ℤ available sku before +ℤ held sku before
  pub stocked : IsStocked sku after

-- The part of an amount of one SKU that concerns another.
unfoldable pub part : ℕ → ℕ → ℤ → ℤ
part sku k q = if k == sku then q else pos 0

abbrev pub Post : ℕ → ℤ → Db → Result Error (Unit {0} × Db) → Type 0
Post sku sold before (ok (u, after)) = Moved sku sold before after
Post sku sold before (err e) = Unit {0}

-- What holds after a statement that does not fail.
pub record Ensures (sku : ℕ) (sold : ℤ) (before : Db) (r : Result Error (Unit {0} × Db))
    : Type 0 where
  pub holds : Post sku sold before r

if-Ensures :
    (sku : ℕ) (sold : ℤ) (before : Db) (c : Bool) (x y : Result Error (Unit {0} × Db))
    → (c ≡ true → Ensures sku sold before x)
    → (c ≡ false → Ensures sku sold before y)
    → Ensures sku sold before (if c then x else y)
if-Ensures sku sold before true x y h k = h refl
if-Ensures sku sold before false x y h k = k refl

check-Ensures :
    (sku : ℕ) (sold : ℤ) (before : Db) (c : Bool) (e : Error) (f : M (Unit {0}))
    → (c ≡ false → Ensures sku sold before (f before))
    → Ensures sku sold before ((if c then throw e else f) before)
check-Ensures sku sold before true e f h = record { holds = tt }
check-Ensures sku sold before false e f h = h refl

on_row-Ensures :
    (sku : ℕ) (sold : ℤ) (before : Db) (f : Inventory → M (Unit {0})) (o : Option Inventory)
    → ((inv : Inventory) → o ≡ some inv → Ensures sku sold before (f inv before))
    → Ensures sku sold before (on_row o f before)
on_row-Ensures sku sold before f none h = record { holds = tt }
on_row-Ensures sku sold before f (some inv) h = h inv refl

-- A write of both counts of a SKU, for a sale of `q` units of it.
store_quantities-Ensures :
    (sku k : ℕ) (inv : Inventory) (a r q : ℤ) (before : Db)
    → before.inventory k ≡ some inv
    → a +ℤ r +ℤ q ≈ℤ inv.quantity_available +ℤ inv.quantity_reserved
    → (k ≡ sku → pos 0 ≤ℤ a)
    → (k ≡ sku → pos 0 ≤ℤ r)
    → IsStocked sku before
    → Ensures sku (part sku k q) before (store_quantities k inv a r before)
unfolding store_quantities part
store_quantities-Ensures sku k inv a r q before row sum na nr h =
    if-Ensures sku _ before (fits_int a && fits_int r) _ _
      (λ _. elim (Bool-cases (k == sku)) [
        | inl same ↦
            let k_is = (==_iff k sku).0 same in
            let row' = ap before.inventory (sym k_is) ∙ row in
            record {
              holds = rw same (record {
                conserved = rw (available, held, same, row') sum;
                stocked = record {
                  some_available = rw (available, same) (na k_is);
                  some_held = rw (held, same) (nr k_is);
                };
              });
            }
        | inr other ↦ record {
          holds = rw other (record {
            conserved = rw (available, held, other) (omega int_laws);
            stocked = record {
              some_available = rw (available, other) h.some_available;
              some_held = rw (held, other) h.some_held;
            };
          });
        }
      ])
      (λ _. record { holds = tt })

part_zero : (sku k : ℕ) → part sku k (pos 0) ≡ pos 0
unfolding part
part_zero sku k = ground arith

nothing_sold-Ensures :
    (sku k : ℕ) (before : Db) (r : Result Error (Unit {0} × Db))
    → Ensures sku (part sku k (pos 0)) before r
    → Ensures sku (pos 0) before r
nothing_sold-Ensures sku k before r = subst (λ x. Ensures sku x before r) (part_zero sku k)

module _ (sku k : ℕ) (q : ℤ) (positive : pos 0 <ℤ q) (before : Db) (h : IsStocked sku before) where
  row_available :
      (inv : Inventory) → before.inventory k ≡ some inv → k ≡ sku → pos 0 ≤ℤ inv.quantity_available
  row_available inv row e = let stocked = h.some_available in rw (available, sym e, row) at stocked

  row_held :
      (inv : Inventory) → before.inventory k ≡ some inv → k ≡ sku → pos 0 ≤ℤ inv.quantity_reserved
  row_held inv row e = let stocked = h.some_held in rw (held, sym e, row) at stocked

  pub reserve-Ensures : Ensures sku (pos 0) before (reserve k q before)
  unfolding reserve
  reserve-Ensures = on_row-Ensures sku _ before _ (before.inventory k) (λ inv row.
      check-Ensures sku (pos 0) before (ltb_ℤ inv.quantity_available q) insufficient _ (λ enough.
        let le = ltb_ℤ→le inv.quantity_available q enough in
        nothing_sold-Ensures sku k before _ (
          store_quantities-Ensures sku k inv (inv.quantity_available -ℤ q)
            (inv.quantity_reserved +ℤ q) (pos 0) before row (omega int_laws) (λ e. omega int_laws)
            (λ e. let some_held = row_held inv row e in omega int_laws) h)))

  pub release_held-Ensures : Ensures sku (pos 0) before (release_held k q before)
  unfolding release_held
  release_held-Ensures = on_row-Ensures sku _ before _ (before.inventory k) (λ inv row.
      check-Ensures sku (pos 0) before (ltb_ℤ inv.quantity_reserved q) insufficient _ (λ enough.
        let le = ltb_ℤ→le inv.quantity_reserved q enough in
        nothing_sold-Ensures sku k before _ (
          store_quantities-Ensures sku k inv (inv.quantity_available +ℤ q)
            (inv.quantity_reserved -ℤ q) (pos 0) before row (omega int_laws)
            (λ e. let some_available = row_available inv row e in omega int_laws)
            (λ e. omega int_laws) h)))

  pub confirm-Ensures : Ensures sku (part sku k q) before (confirm k q before)
  unfolding confirm
  confirm-Ensures = on_row-Ensures sku _ before _ (before.inventory k) (λ inv row.
      check-Ensures sku (part sku k q) before (ltb_ℤ inv.quantity_reserved q) insufficient _
        (λ enough.
          let le = ltb_ℤ→le inv.quantity_reserved q enough in
          store_quantities-Ensures sku k inv inv.quantity_available (inv.quantity_reserved -ℤ q) q
            before row (omega int_laws) (row_available inv row) (λ e. omega int_laws) h))
