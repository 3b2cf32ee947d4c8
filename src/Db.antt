-- ===== src/Db.antt =====
-- The database and its sessions.
mod Sessions
mod Constraints
mod References
pub mod Laws
pub use Sessions.*
pub use Constraints.*
pub use References.*
unfoldable pub use References.{user_allowed, asset_allowed, insert_user, insert_asset}
unfoldable pub use Constraints.{
  wallet_allowed, transaction_allowed, entry_allowed, order_allowed, event_allowed, insert_wallet,
  insert_transaction, insert_entry, insert_order, insert_event, set_balances, set_available,
}
