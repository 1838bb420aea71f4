-- ===== src/Payments.antt =====
-- Subscription payments (src/payments): the plan catalogue, checkouts, and what a trusted message of
-- the payment provider does to the books.
pub mod Catalog
pub mod Books
pub mod Paystack
pub mod Settlement
pub mod Advances
pub mod Service
pub mod Reconcile
pub mod Calls
mod Examples
