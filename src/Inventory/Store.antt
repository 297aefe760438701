-- ===== src/Inventory/Store.antt =====
-- The tables of the inventory service and the statements on them
-- (backend/services/inventory/internal/domain/inventory.go and
-- internal/adapter/postgres/inventory_repo.go). Uuids are numbers, and so are the texts that are
-- only compared: `no_reference` is the empty reference, which RecordMovement hands over for a
-- movement without one, and the reference types are the codes below. Stamps are left out.
use ec_test.Base.{
  ℕ, ◌-◌, ◌^◌, Bool, true, false, ◌&&◌, ◌||◌, Option, none, some, List, [], ◌∷◌, ◌==◌,
  if◌then◌else◌,
}
use ec_test.Base.Int.{ℤ, pos, negsuc, ◌+ℤ◌, ◌-ℤ◌, leb_ℤ, ltb_ℤ}
use ec_test.Base.Tx.{Tx, ok, err, pure, throw, gets, ◌>>=◌, ◌>>◌}

pub data MovementType : Type 0 where
  received reserved released sold adjusted : MovementType

pub record Inventory : Type 0 where
  pub sku_id : ℕ
  pub seller_id : ℕ
  pub quantity_available : ℤ
  pub quantity_reserved : ℤ
  pub low_stock_threshold : ℤ

pub record CancellationLine : Type 0 where
  pub sku_id : ℕ
  pub quantity : ℤ

pub data ReferenceType : Type 0 where
  stock_update reservation release sale order_cancellation : ReferenceType

pub record StockMovement : Type 0 where
  pub sku_id : ℕ
  pub movement_type : MovementType
  pub quantity : ℤ
  pub reference_type : ReferenceType
  pub reference_id : ℕ

-- The errors of the statements, and those of the service.
pub data Error : Type 0 where
  not_found insufficient out_of_range refused : Error
  inventory_not_found invalid_quantity conflict internal : Error

-- The rows of `inventory` by `sku_id`, which is unique, and `stock_movements`, newest first.
pub record Db : Type 0 where
  pub inventory : ℕ → Option Inventory
  pub stock_movements : List StockMovement

abbrev pub M : Type 0 → Type 0
M A = Tx Db Error A

abbrev pub update : (ℕ → Option Inventory) → ℕ → Inventory → ℕ → Option Inventory
update f k v j = if k == j then some v else f j

-- An INT column.
unfoldable pub fits_int : ℤ → Bool
fits_int a = leb_ℤ (negsuc (2 ^ 31 - 1)) a && ltb_ℤ a (pos (2 ^ 31))

-- The write of a row with new quantities.
unfoldable pub store_quantities : ℕ → Inventory → ℤ → ℤ → M (Unit {0})
unfolding fits_int
store_quantities sku inv available held db =
    if fits_int available && fits_int held
    then ok (
      tt,
      record db {
        inventory =
            update db.inventory sku
              (record inv { quantity_available = available; quantity_reserved = held });
      },
    )
    else err out_of_range

-- `GetBySKUID`
abbrev pub get_by_sku_id : ℕ → M (Option Inventory)
get_by_sku_id sku = gets (λ db. db.inventory sku)

-- The SELECT FOR UPDATE of the operations below, and what they do with the row.
abbrev pub on_row : Option Inventory → (Inventory → M (Unit {0})) → M (Unit {0})
on_row none then_do db = err not_found
on_row (some inv) then_do db = then_do inv db

abbrev pub lock_row : ℕ → (Inventory → M (Unit {0})) → M (Unit {0})
lock_row sku then_do db = on_row (db.inventory sku) then_do db

-- `Upsert`: on a conflict the held quantity and the seller stay.
unfoldable pub upsert : Inventory → M (Unit {0})
unfolding store_quantities
upsert inv db = elim (db.inventory inv.sku_id) [
  | none ↦
      if fits_int inv.low_stock_threshold
      then store_quantities inv.sku_id inv inv.quantity_available inv.quantity_reserved db
      else err out_of_range
  | some old ↦
      if fits_int inv.low_stock_threshold && fits_int inv.quantity_reserved
      then store_quantities inv.sku_id
          (record old { low_stock_threshold = inv.low_stock_threshold }) inv.quantity_available
          old.quantity_reserved db
      else err out_of_range
]

-- `Reserve`
unfoldable pub reserve : ℕ → ℤ → M (Unit {0})
unfolding store_quantities
reserve sku quantity = lock_row sku (λ inv.
    if ltb_ℤ inv.quantity_available quantity
    then throw insufficient
    else store_quantities sku inv (inv.quantity_available -ℤ quantity)
        (inv.quantity_reserved +ℤ quantity))

-- `Release`
unfoldable pub release_held : ℕ → ℤ → M (Unit {0})
unfolding store_quantities
release_held sku quantity = lock_row sku (λ inv.
    if ltb_ℤ inv.quantity_reserved quantity
    then throw insufficient
    else store_quantities sku inv (inv.quantity_available +ℤ quantity)
        (inv.quantity_reserved -ℤ quantity))

-- `ConfirmSold`
unfoldable pub confirm : ℕ → ℤ → M (Unit {0})
unfolding store_quantities
confirm sku quantity = lock_row sku (λ inv.
    if ltb_ℤ inv.quantity_reserved quantity
    then throw insufficient
    else store_quantities sku inv inv.quantity_available (inv.quantity_reserved -ℤ quantity))

-- `AdjustStock`: an UPDATE of no row is an error.
unfoldable pub adjust_stock : ℕ → ℤ → M (Unit {0})
unfolding store_quantities
adjust_stock sku quantity =
    lock_row sku
      (λ inv. store_quantities sku inv (inv.quantity_available +ℤ quantity) inv.quantity_reserved)

-- `RecordMovement`: whether the database takes the row is a parameter, `accepts`.
unfoldable pub record_movement : (StockMovement → Bool) → StockMovement → M (Unit {0})
record_movement accepts m db =
    if accepts m
    then ok (tt, record db { stock_movements = m ∷ db.stock_movements })
    else err refused

abbrev is_cancellation : ReferenceType → Bool
is_cancellation order_cancellation = true
is_cancellation _ = false

-- The idempotency guard: a movement for the cancellation of this order.
unfoldable pub has_cancellation : ℕ → List StockMovement → Bool
has_cancellation order_id [] = false
has_cancellation order_id (m ∷ ms) =
    (is_cancellation m.reference_type && m.reference_id == order_id) || has_cancellation order_id ms

-- The UPDATE of one line. No row is not an error here.
unfoldable pub add_available : ℕ → ℤ → M (Unit {0})
unfolding store_quantities
add_available sku quantity db = elim (db.inventory sku) [
  | none ↦ ok (tt, db)
  | some inv ↦
      store_quantities sku inv (inv.quantity_available +ℤ quantity) inv.quantity_reserved db
]

abbrev pub cancellation_movement : ℕ → CancellationLine → StockMovement
cancellation_movement order_id l = record {
  sku_id = l.sku_id;
  movement_type = released;
  quantity = l.quantity;
  reference_type = order_cancellation;
  reference_id = order_id;
}

-- The loop over the lines.
unfoldable pub release_lines : (StockMovement → Bool) → ℕ → List CancellationLine → M (Unit {0})
unfolding add_available record_movement
release_lines accepts order_id [] = pure tt
release_lines accepts order_id (l ∷ ls) =
    let rest = release_lines accepts order_id ls in
    if leb_ℤ l.quantity (pos 0) then rest else (do
      add_available l.sku_id l.quantity
      record_movement accepts (cancellation_movement order_id l)
      rest)

-- `ReleaseForOrderCancellation`: whether the release was made before.
unfoldable pub release_for_order_cancellation :
    (StockMovement → Bool) → ℕ → List CancellationLine → M Bool
unfolding has_cancellation release_lines
release_for_order_cancellation accepts order_id lines = do
  existing ← gets (λ db. has_cancellation order_id db.stock_movements)
  if existing then pure true else (do release_lines accepts order_id lines; pure false)
