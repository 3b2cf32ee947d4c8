-- ===== src/Api.antt =====
-- app/api: the routes, for validated requests.
pub mod Answers
pub mod Schemas
pub mod OrderRoutes
pub mod WalletRoutes
pub mod Repeats
pub mod Changes
pub mod SignIn
pub mod Rearranged
pub mod OwnRows
pub mod Listing
pub mod Security
pub mod AuthRoutes
pub mod Raced
pub mod SystemRoutes
