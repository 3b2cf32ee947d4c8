-- ===== src/Orders.antt =====
-- app/services/orders.py: the reservation of an order's funds and its cancellation.
mod Reserve
mod Cancel
pub mod Outcomes
pub mod CancelOutcomes
pub mod Placed
pub mod Keys
pub mod Replay
pub mod Released
pub mod Recanceled
pub mod Waited
pub use Reserve.*
unfoldable pub use Reserve.{
  reservation_amount, ledger_idempotency_key, active_asset, validate_replay, existing_order_replay,
  validated, place_order, reserve_funds, create_order_reservation,
}
pub use Cancel.*
unfoldable pub use Cancel.{set_canceled, release_funds, cancel_open, cancel_order_reservation}
