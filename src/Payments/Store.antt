-- ===== src/Payments/Store.antt =====
-- The state of the payments module (modules/payments/payments.service.ts): the tables that it
-- reads and writes, and the events that it has emitted, the latest first. The database is a
-- parameter, and so is the clock: `now` is the instant at which a method reads it.
use edu_crm_backend.Base.{Bool, ◌&&◌, List, ◌∷◌, ◌==◌}
use edu_crm_backend.Base.Int.{ℤ}
use edu_crm_backend.Base.Action.{Action, gets, or_throw, ◌>>=◌, modify, not_found}
use edu_crm_backend.Database.{Uuid, Repository}
use edu_crm_backend.Payments.Entities.{
  Payment, Discount, Invoice, Account, payment_live, discount_live, invoice_live,
}

-- What the module emits on the event bus.
pub data Event : Type 0 where
  payment_created : Payment → Uuid → Event
  payment_received : Uuid → Payment → Event
  payment_refunded : Payment → ℤ → Uuid → Event
  payment_overdue : Payment → Event

pub record Store : Type 0 where
  pub payments : List Payment
  pub discounts : List Discount
  pub invoices : List Invoice
  pub students : List Account
  pub events : List Event

pub record Db : Type 0 where
  pub payments : Repository payment_live
  pub discounts : Repository discount_live
  pub invoices : Repository invoice_live

abbrev pub emit : Event → Action Store (Unit {0})
emit e = modify (λ s. record s { events = e ∷ s.events })

-- `where: { id, tenantId }`
abbrev pub in_tenant : Uuid → Uuid → Payment → Bool
in_tenant id tenant_id p = p.id == id && p.tenant_id == tenant_id

-- The primary key.
abbrev pub payment_id : Payment → Uuid
payment_id p = p.id

-- `update(id, …)`
abbrev pub has_id : Uuid → Payment → Bool
has_id id p = p.id == id

module _ (db : Db) where
  unfoldable pub find_one : Uuid → Uuid → Action Store Payment
  find_one id tenant_id = do
    found ← gets (λ s. db.payments.find_one (in_tenant id tenant_id) s.payments)
    or_throw found (not_found "Payment not found")
