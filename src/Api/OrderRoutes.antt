-- ===== src/Api/OrderRoutes.antt =====
-- app/api/routes/orders.py. `create_order` and `cancel_order` for a validated request.
use crypto_ledger_sandbox.Prelude.{Bool, Option, none, some, String, ◌==◌, if◌then◌else◌, find?}
use crypto_ledger_sandbox.Models.{Uuid, User, Asset, Order}
use crypto_ledger_sandbox.Db.{
  Db, Platform, Error, Result, ok, err, run, order_asset_not_found, insufficient_available_balance,
  order_idempotency_conflict, order_not_found, order_not_cancelable, order_reservation_state,
  value_error,
}
use crypto_ledger_sandbox.Orders.{
  OrderReservationResult, OrderCall, OrderDraws, CancelDraws, OrderCancellationResult,
  create_order_reservation, cancel_order_reservation,
}
use crypto_ledger_sandbox.Api.Answers.{Answer, respond, http_exception, unhandled, Route}
use crypto_ledger_sandbox.Api.Schemas.{OrderCreateRequest, OrderResponse}

abbrev pub build_order_response : Order → Asset → Asset → Asset → Bool → OrderResponse
build_order_response order base_asset quote_asset reserve_asset replayed = record {
  id = order.id;
  base_asset_code = base_asset.code;
  quote_asset_code = quote_asset.code;
  side = order.side;
  status = order.status;
  price = order.price;
  quantity = order.quantity;
  remaining_quantity = order.remaining_quantity;
  reserved_asset_code = reserve_asset.code;
  reserved_amount = order.reserved_amount;
  reservation_transaction_id = order.reservation_transaction_id;
  replayed = replayed;
}

abbrev pub order_call : User → OrderCreateRequest → String → OrderCall
order_call current_user payload idempotency_key = record {
  user_id = current_user.id;
  base_asset_code = payload.base_asset_code;
  quote_asset_code = payload.quote_asset_code;
  side = payload.side;
  price = payload.price;
  quantity = payload.quantity;
  idempotency_key = idempotency_key;
}

-- The `except` clauses.
abbrev pub create_order_error : Error → Answer OrderResponse
create_order_error order_asset_not_found = http_exception 404 "Requested asset was not found."
create_order_error insufficient_available_balance =
    http_exception 409 "Insufficient available balance for this order."
create_order_error order_idempotency_conflict =
    http_exception 409 "Idempotency key was already used with different order data."
create_order_error (value_error detail) = http_exception 422 detail
create_order_error e = unhandled e

abbrev pub created_answer : Result OrderReservationResult → Answer OrderResponse
created_answer (ok result) = respond (if result.replayed then 200 else 201) (
    build_order_response result.order result.base_asset result.quote_asset result.reserve_asset
      result.replayed)
created_answer (err e) = create_order_error e

unfoldable pub create_order :
    Platform → OrderDraws → OrderCreateRequest → String → User → Route OrderResponse
create_order platform draws payload idempotency_key current_user db =
    let (result, db') =
      run
        (create_order_reservation platform draws (order_call current_user payload idempotency_key))
        db in
    (created_answer result, db')

abbrev pub cancel_order_error : Error → Answer OrderResponse
cancel_order_error order_not_found = http_exception 404 "Order was not found."
cancel_order_error order_not_cancelable =
    http_exception 409 "Order cannot be canceled in its current state."
cancel_order_error order_reservation_state =
    http_exception 409 "Order cannot be canceled in its current state."
cancel_order_error e = unhandled e

abbrev pub with_assets :
    OrderCancellationResult → Option Asset → Option Asset → Answer OrderResponse
with_assets result (some base_asset) (some quote_asset) =
    respond 200 (
      build_order_response result.order base_asset quote_asset result.reserve_asset result.replayed)
with_assets result none quote_asset = http_exception 500 "Order assets are unavailable."
with_assets result (some base_asset) none = http_exception 500 "Order assets are unavailable."

-- The assets are read after the cancellation is committed.
abbrev pub canceled_answer : Result OrderCancellationResult → Db → Answer OrderResponse
canceled_answer (ok result) db =
    with_assets result (find? (λ a. a.id == result.order.base_asset_id) db.assets)
      (find? (λ a. a.id == result.order.quote_asset_id) db.assets)
canceled_answer (err e) db = cancel_order_error e

unfoldable pub cancel_order : Platform → CancelDraws → Uuid → User → Route OrderResponse
cancel_order platform draws order_id current_user db =
    let (result, db') = run (cancel_order_reservation platform draws current_user.id order_id) db in
    (canceled_answer result db', db')
