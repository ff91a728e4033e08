-- ===== src/Payments.antt =====
-- The payments module: payments, discounts and invoices (modules/payments), and the nightly job
-- that turns pending payments into overdue ones (modules/scheduler).
pub mod Entities
pub mod Store
pub mod Create
pub mod Settle
pub mod Discount
pub mod Overdue
pub mod Lifecycle
pub mod Refunds
pub mod Totals
pub mod Numbers
pub mod Limits
pub mod Lapse
pub mod History
pub mod Balance
pub mod Once
mod Tests
