-- ===== src/Tests/StockRuns.antt =====
-- Runs of the inventory service and of the discount split.
use ec_test.Base.{◌≡◌, refl, Bool, true, none, some, List, [], ◌∷◌, ◌==◌, if◌then◌else◌, arith}
use ec_test.Base.Int.{pos, negsuc, neg_ℤ, ◌+ℤ◌, add64, sub64, quot64, mul64}
use ec_test.Inventory.Service.{release_stock_for_order_cancellation}
use ec_test.Inventory.Redelivery.{release_stock_redelivered}
use ec_test.Inventory.Store.{CancellationLine, Inventory, StockMovement, Db}
use ec_test.Inventory.Counts.{available, held, IsStocked}
use ec_test.Inventory.Conserved.{
  Call, reserving, releasing, selling, run, sold_units, run_conserves,
}
use ec_test.Order.Discount.{distribute_discount}

abbrev ten_units : Inventory
ten_units = record {
  sku_id = 1;
  seller_id = 7;
  quantity_available = pos 10;
  quantity_reserved = pos 0;
  low_stock_threshold = pos 4;
}

abbrev shop : Db
shop = record { inventory = λ sku. if sku == 1 then some ten_units else none; stock_movements = [] }

abbrev take_all : StockMovement → Bool
take_all _ = true

-- The second reservation is refused, and so is the sale of another SKU.
abbrev orders : List Call
orders =
    reserving 1 (pos 6)
    ∷ reserving 1 (pos 6)
    ∷ selling 1 (pos 2)
    ∷ selling 2 (pos 1)
    ∷ releasing 1 (pos 1)
    ∷ []

shop-IsStocked : IsStocked 1 shop
shop-IsStocked = record { some_available = omega arith; some_held = omega arith }

run_conserves_example :
    IsStocked 1 (run take_all orders shop)
    × (available 1 (run take_all orders shop)
          +ℤ held 1 (run take_all orders shop)
          +ℤ sold_units take_all 1 orders shop
        ≡ available 1 shop +ℤ held 1 shop)
run_conserves_example = run_conserves take_all 1 orders shop shop-IsStocked

-- The remainder goes to the last subtotal above zero.
split_101 :
    distribute_discount (pos 101) (pos 300 ∷ pos 0 ∷ pos 700 ∷ []) ≡ pos 30 ∷ pos 0 ∷ pos 71 ∷ []
unfolding distribute_discount add64 sub64 quot64 mul64
split_101 = refl

-- On amounts that overflow the sum, the remainder too is wrapped.
split_overflowing :
    distribute_discount
      (pos 9223372036854775807)
      (pos 9223372036854775807 ∷ pos 9223372036854775807 ∷ pos 4 ∷ [])
    ≡ pos 0 ∷ pos 0 ∷ negsuc 1 ∷ []
unfolding distribute_discount add64 sub64 quot64 mul64 neg_ℤ
split_overflowing = refl

-- Three yen off six items of one yen each take one yen off.
split_3_of_6 :
    distribute_discount (pos 3) (pos 1 ∷ pos 1 ∷ pos 1 ∷ pos 1 ∷ pos 1 ∷ pos 1 ∷ [])
    ≡ pos 0 ∷ pos 0 ∷ pos 0 ∷ pos 0 ∷ pos 0 ∷ pos 1 ∷ []
unfolding distribute_discount add64 sub64 quot64 mul64
split_3_of_6 = refl

abbrev cancelled_lines : List CancellationLine
cancelled_lines =
    record { sku_id = 1; quantity = pos 3 } ∷ record { sku_id = 2; quantity = pos 1 } ∷ []

release_stock_redelivered_example :
    release_stock_for_order_cancellation take_all 20 cancelled_lines
      (release_stock_for_order_cancellation take_all 20 cancelled_lines shop).db
    ≡ release_stock_for_order_cancellation take_all 20 cancelled_lines shop
release_stock_redelivered_example = release_stock_redelivered take_all 20 cancelled_lines shop
