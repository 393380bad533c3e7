-- ===== src/Billing.antt =====
-- backend/billing/billing.py: from Polar's objects to the plan of a local account.
pub mod Polar
pub mod Resolve
pub mod Events
pub mod Checkout
pub mod Reconcile
mod Tests
