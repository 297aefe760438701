-- ===== src/Order/Cancellation/Service.antt =====
-- The calls of the order service on orders and their cancellation requests
-- (backend/services/order/internal).
mod Outside
mod Requests
mod Approvals
mod Fulfilment
pub use ec_test.Order.Cancellation.Service.Outside.{
  Stripe, StripeCall, Event, World, cancelled_event, publish, in_tx, with_order, refund_call,
  reverse_call, cancellation_requested, cancellation_rejected, cancellation_approved,
  order_cancelled, order_shipped,
}
pub use ec_test.Order.Cancellation.Service.Requests.{
  create_error, with_request_of_seller, reject_error,
}
unfoldable pub use ec_test.Order.Cancellation.Service.Requests.{
  request_cancellation, reject_cancellation,
}
pub use ec_test.Order.Cancellation.Service.Approvals.{
  intent_of, transfer_of, fail_request, is_pending_exists, is_status_changed, approve_error,
}
unfoldable pub use ec_test.Order.Cancellation.Service.Approvals.{
  reverse_payouts, begin_approval, approve_cancellation, open_new, open_request, admin_force_cancel,
  finish_approval,
}
pub use ec_test.Order.Cancellation.Service.Fulfilment.{is_target, is_shipped}
unfoldable pub use ec_test.Order.Cancellation.Service.Fulfilment.{
  update_order_status, handle_shipment,
}
