-- ===== src/Payments/Create.antt =====
-- `create` and `createInvoice` of modules/payments/payments.service.ts, and `getNextInvoiceNumber`
-- of payments.repository.ts. The id of a new row, which the database makes up, is an argument.
use edu_crm_backend.Base.{
  ℕ, ◌+◌, ◌*◌, ◌/◌, String, false, ◌&&◌, Option, none, some, ◌++◌, ◌==◌, str_eq, if◌then◌else◌,
  or_else, length, select,
}
use edu_crm_backend.Base.Int.{ℤ, pos, ◌+ℤ◌, ◌-ℤ◌}
use edu_crm_backend.Base.Action.{Action, pure, gets, or_throw, ◌>>=◌, ◌>>◌, modify, not_found}
use edu_crm_backend.Database.{Uuid, Instant}
use edu_crm_backend.Text.{Text, codes, decimal, pad_start}
use edu_crm_backend.Shared.Enums.{PaymentStatus, PaymentMethod}
use edu_crm_backend.Payments.Entities.{Payment, Invoice, InvoiceStatus}
use edu_crm_backend.Payments.Store.{payment_created, Store, Db, emit}

-- (amount * percent) / 100, which is 0 for a percentage of 0; exact up to the cent.
unfoldable pub percent_of : ℕ → ℕ → ℕ
percent_of amount percent = if percent == 0 then 0 else amount * percent / 10000

-- amount - discountAmount + taxAmount
unfoldable pub total_of : ℕ → ℕ → ℕ → ℤ
total_of amount discount tax = (pos amount -ℤ pos discount) +ℤ pos tax

-- `INV-${year}-${String(count).padStart(6, '0')}`
unfoldable pub number_text : ℕ → ℕ → Text
number_text year count =
    codes "INV-" ++ (decimal year ++ (codes "-" ++ pad_start 6 b'0' (decimal count)))

-- `SELECT COUNT(*) FROM payments WHERE tenant_id = $1`, deleted rows included, plus one.
unfoldable pub next_invoice_number : ℕ → Uuid → Store → Text
next_invoice_number year tenant_id s =
    number_text year (length (select (λ p. p.tenant_id == tenant_id) s.payments) + 1)

pub record CreatePaymentDto : Type 0 where
  pub student_id : Uuid
  pub course_id : Option Uuid
  pub amount : ℕ
  pub currency : Option String
  pub payment_method : Option PaymentMethod
  pub due_date : Option Instant
  pub notes : Option String
  pub discount_percent : Option ℕ
  pub tax_percent : Option ℕ

-- `dto.currency || d`: an empty text counts as absent.
pub currency_or : Option String → String → String
currency_or none d = d
currency_or (some c) d = if str_eq c "" then d else c

-- The entity that `create` hands to `save`; the columns that it leaves out have their defaults.
unfoldable pub new_payment : CreatePaymentDto → Uuid → Uuid → Uuid → Instant → Text → Payment
unfolding percent_of total_of currency_or
new_payment dto tenant_id created_by new_id now number =
    let discount_percent = or_else dto.discount_percent 0 in
    let tax_percent = or_else dto.tax_percent 0 in
    let discount_amount = percent_of dto.amount discount_percent in
    let tax_amount = percent_of dto.amount tax_percent in
    record {
      id = new_id;
      created_at = now;
      updated_at = now;
      deleted_at = none;
      tenant_id = tenant_id;
      student_id = dto.student_id;
      course_id = dto.course_id;
      invoice_number = number;
      amount = dto.amount;
      currency = currency_or dto.currency "UZS";
      discount_amount = discount_amount;
      discount_percent = discount_percent;
      tax_amount = tax_amount;
      total_amount = total_of dto.amount discount_amount tax_amount;
      status = PaymentStatus.pending;
      payment_method = or_else dto.payment_method PaymentMethod.cash;
      due_date = dto.due_date;
      paid_at = none;
      transaction_id = none;
      external_payment_id = none;
      receipt_url = none;
      notes = dto.notes;
      received_by = some created_by;
      billing_period_start = none;
      billing_period_end = none;
      stripe_payment_intent_id = none;
      stripe_customer_id = none;
      tax_percent = tax_percent;
      is_recurring = false;
      recurring_interval = none;
      next_billing_date = none;
      refunded_amount = pos 0;
      refund_reason = none;
      refunded_at = none;
      invoice_url = none;
    }

abbrev pub thirty_days : ℕ
thirty_days = 30 * 24 * 60 * 60 * 1000

-- The invoice that `createInvoice` makes for a payment.
pub new_invoice : Payment → Uuid → Instant → Invoice
new_invoice payment new_id now = record {
  id = new_id;
  deleted_at = none;
  tenant_id = payment.tenant_id;
  payment_id = payment.id;
  student_id = payment.student_id;
  invoice_number = codes "INV-" ++ payment.invoice_number;
  issued_at = now;
  due_date = or_else payment.due_date (now + thirty_days);
  subtotal = payment.amount;
  discount_amount = payment.discount_amount;
  tax_amount = payment.tax_amount;
  total_amount = payment.total_amount;
  currency = if str_eq payment.currency "" then "USD" else payment.currency;
  status = InvoiceStatus.sent;
  pdf_url = none;
  notes = none;
}

module _ (db : Db) where
  unfoldable pub create_invoice : Payment → Uuid → Instant → Action Store Invoice
  create_invoice payment new_id now = do
    let invoice = new_invoice payment new_id now
    modify (λ s. record s { invoices = db.invoices.insert invoice s.invoices })
    pure invoice

  unfoldable pub create :
      CreatePaymentDto → Uuid → Uuid → Uuid → Uuid → ℕ → Instant → Action Store Payment
  create dto tenant_id created_by payment_id invoice_id year now = do
    number ← gets (next_invoice_number year tenant_id)
    let payment = new_payment dto tenant_id created_by payment_id now number
    modify (λ s. record s { payments = db.payments.insert payment s.payments })
    create_invoice payment invoice_id now
    emit (payment_created payment tenant_id)
    pure payment

  pub get_invoice : Uuid → Uuid → Action Store Invoice
  get_invoice payment_id tenant_id = do
    found ← gets (λ s.
        db.invoices.find_one (λ i. i.payment_id == payment_id && i.tenant_id == tenant_id)
          s.invoices)
    or_throw found (not_found "Invoice not found for this payment")
