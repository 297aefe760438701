-- ===== src/Inventory/Service.antt =====
-- The operations of backend/services/inventory/internal/app/inventory_service.go. Each statement is
-- a transaction of its own. A movement that the database refuses is logged, and the operation goes
-- on. The outcome lists the events that are published.
use ec_test.Base.{ℕ, Bool, Option, none, some, List, [], ◌∷◌, ◌==◌, length, if◌then◌else◌}
use ec_test.Base.Int.{ℤ, pos, leb_ℤ}
use ec_test.Base.Tx.{Result, ok, err, run_tx}
use ec_test.Inventory.Store.{
  Db, M, Error, inventory_not_found, invalid_quantity, conflict, internal, Inventory, StockMovement,
  CancellationLine, MovementType, ReferenceType, reserved, released, sold, adjusted, stock_update,
  reservation, release, sale, upsert, reserve, release_held, confirm, record_movement,
  release_for_order_cancellation,
}

-- The values of the proto messages are the row's, which INT columns hold.
pub data Event : Type 0 where
  inventory_updated : Inventory → Event
  low_stock : Inventory → Event

pub record Outcome (A : Type 0) : Type 0 where
  pub reply : Result Error A
  pub db : Db
  pub events : List Event

-- The text that stands for no reference.
abbrev pub no_reference : ℕ
no_reference = 0

abbrev pub movement : ℕ → MovementType → ℤ → ReferenceType → StockMovement
movement sku kind quantity reference = record {
  sku_id = sku;
  movement_type = kind;
  quantity = quantity;
  reference_type = reference;
  reference_id = no_reference;
}

-- `GetInventory`
unfoldable pub get_inventory : ℕ → Db → Result Error Inventory
get_inventory sku db = elim (db.inventory sku) [
  | none ↦ err inventory_not_found
  | some inv ↦ ok inv
]

module _ (accepts : StockMovement → Bool) where
  -- `RecordMovement`, whose error only goes to the log.
  unfoldable pub log_movement : StockMovement → Db → Db
  unfolding record_movement
  log_movement m db = (run_tx (record_movement accepts m) db).1

  -- After the write: the movement and the events on success, the error that the caller sees
  -- otherwise.
  abbrev pub after_write :
      Error → StockMovement → List Event → Result Error (Unit {0}) × Db → Outcome (Unit {0})
  after_write e m events (ok tt, db) = record {
    reply = ok tt;
    db = log_movement m db;
    events = events;
  }
  after_write e m events (err _, db) = record { reply = err e; db = db; events = [] }

  -- `UpdateStock`
  unfoldable pub update_stock : Inventory → Db → Outcome (Unit {0})
  unfolding upsert log_movement
  update_stock inv db =
      after_write internal (movement inv.sku_id adjusted inv.quantity_available stock_update)
        (inventory_updated inv ∷ []) (run_tx (upsert inv) db)

  abbrev low_stock_events : Option Inventory → List Event
  low_stock_events none = []
  low_stock_events (some inv) =
      if leb_ℤ inv.quantity_available inv.low_stock_threshold then low_stock inv ∷ [] else []

  -- The part that the three operations on held stock share: check, write, log.
  abbrev pub move_stock :
      (ℕ → ℤ → M (Unit {0})) → MovementType → ReferenceType → ℕ → ℤ → Db → Outcome (Unit {0})
  move_stock write kind reference sku quantity db =
      if leb_ℤ quantity (pos 0)
      then record { reply = err invalid_quantity; db = db; events = [] }
      else after_write conflict (movement sku kind quantity reference) []
          (run_tx (write sku quantity) db)

  abbrev pub low_stock_after : ℕ → Result Error (Unit {0}) → Db → List Event
  low_stock_after sku (ok tt) db = low_stock_events (db.inventory sku)
  low_stock_after sku (err e) db = []

  abbrev pub with_low_stock : ℕ → Outcome (Unit {0}) → Outcome (Unit {0})
  with_low_stock sku o = record o { events = low_stock_after sku o.reply o.db }

  -- `ReserveStock`
  unfoldable pub reserve_stock : ℕ → ℤ → Db → Outcome (Unit {0})
  unfolding reserve log_movement
  reserve_stock sku quantity db =
      with_low_stock sku (move_stock reserve reserved reservation sku quantity db)

  -- `ReleaseStock`
  unfoldable pub release_stock : ℕ → ℤ → Db → Outcome (Unit {0})
  unfolding release_held log_movement
  release_stock = move_stock release_held released release

  -- `ConfirmSold`
  unfoldable pub confirm_sold : ℕ → ℤ → Db → Outcome (Unit {0})
  unfolding confirm log_movement
  confirm_sold = move_stock confirm sold sale

  -- A release that was made before is a success.
  abbrev pub cancellation_outcome : Result Error Bool × Db → Outcome (Unit {0})
  cancellation_outcome (ok already, db) = record { reply = ok tt; db = db; events = [] }
  cancellation_outcome (err e, db) = record { reply = err internal; db = db; events = [] }

  -- `ReleaseStockForOrderCancellation`
  unfoldable pub release_stock_for_order_cancellation :
      ℕ → List CancellationLine → Db → Outcome (Unit {0})
  unfolding release_for_order_cancellation
  release_stock_for_order_cancellation order_id lines db =
      if length lines == 0
      then record { reply = ok tt; db = db; events = [] }
      else cancellation_outcome (run_tx (release_for_order_cancellation accepts order_id lines) db)
