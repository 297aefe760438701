-- ===== src/Order/Cancellation/Service/Fulfilment.antt =====
-- The writes of an order's status: `UpdateOrderStatus` of
-- backend/services/order/internal/app/order_service.go, and the subscriber of shipping events
-- (internal/adapter/pubsub/shipping_subscriber.go).
use ec_test.Base.{ℕ, Bool, true, false, not, ◌==◌, if◌then◌else◌}
use ec_test.Base.Tx.{Result, ok, err}
use ec_test.Order.Cancellation.Domain.{
  OrderStatus, processing, shipped, delivered, completed, cancelled,
}
use ec_test.Order.Cancellation.Store.{
  Error, internal, order_not_found, invalid_order_status, update_status,
}
use ec_test.Order.Cancellation.Service.Outside.{World, publish, in_tx, with_order, order_shipped}

-- The switch at the start of `UpdateOrderStatus`.
abbrev pub is_target : OrderStatus → Bool
is_target processing = true
is_target shipped = true
is_target delivered = true
is_target completed = true
is_target cancelled = true
is_target _ = false

abbrev pub is_shipped : OrderStatus → Bool
is_shipped shipped = true
is_shipped _ = false

-- `OrderService.UpdateOrderStatus`
unfoldable pub update_order_status : ℕ → ℕ → OrderStatus → World → Result Error (Unit {0}) × World
update_order_status seller order_id next w =
    if not (is_target next)
    then (err invalid_order_status, w)
    else with_order order_id w (λ o.
      if not (o.seller_id == seller)
      then (err order_not_found, w)
      else in_tx (update_status order_id next) w (λ _. internal)
          (λ _ w'. (ok tt, if is_shipped next then publish (order_shipped order_id) w' else w')))

-- `handleShipmentShipped` and `handleShipmentDelivered`
unfoldable pub handle_shipment : ℕ → Bool → World → Result Error (Unit {0}) × World
handle_shipment order_id is_delivered w =
    in_tx (update_status order_id (if is_delivered then delivered else shipped)) w (λ e. e)
      (λ _ w'. (ok tt, w'))
