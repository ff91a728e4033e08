-- ===== src/Payments/Settle.antt =====
-- `pay`, `refund` and `update` of modules/payments/payments.service.ts. Each `UPDATE` of TypeORM sets
-- the column `updated_at` too.
use edu_crm_backend.Base.{ℕ, String, not, Option, none, some, ◌==◌, or_else}
use edu_crm_backend.Base.Int.{ℤ, pos, ◌+ℤ◌, ◌-ℤ◌, max_zero}
use edu_crm_backend.Base.Action.{Action, pure, ◌>>=◌, ◌>>◌, throw_if, modify, bad_request}
use edu_crm_backend.Database.{Uuid, Instant}
use edu_crm_backend.Database.Rows.{update_rows}
use edu_crm_backend.Text.{Text}
use edu_crm_backend.Shared.Enums.{PaymentStatus, PaymentMethod}
use edu_crm_backend.Payments.Entities.{Payment, InvoiceStatus, Account, is_paid}
use edu_crm_backend.Payments.Store.{
  payment_received, payment_refunded, Store, Db, emit, has_id, find_one,
}

pub record RefundDto : Type 0 where
  pub amount : Option ℕ
  pub reason : Option String

-- `Number(dto.amount ?? payment.totalAmount)`
unfoldable pub refund_amount : RefundDto → Payment → ℤ
refund_amount dto payment = elim dto.amount [ none ↦ payment.total_amount | some a ↦ pos a ]

abbrev pub set_paid : Instant → Payment → Payment
set_paid now p = record p { status = PaymentStatus.paid; paid_at = some now; updated_at = now }

abbrev pub set_refunded : ℤ → Option String → Instant → Payment → Payment
set_refunded amount reason now p = record p {
  status = PaymentStatus.refunded;
  refunded_amount = amount;
  refund_reason = reason;
  refunded_at = some now;
  updated_at = now;
}

-- `UPDATE students SET total_paid = total_paid + $1, debt_amount = GREATEST(0, debt_amount - $1)`
abbrev pub credit : ℤ → Account → Account
credit total a = record a {
  total_paid = a.total_paid +ℤ total;
  debt_amount = max_zero (a.debt_amount -ℤ total);
}

-- The fields of `UpdatePaymentDto` that are columns of a payment; an absent one is left alone.
pub record UpdatePaymentDto : Type 0 where
  pub student_id : Option Uuid
  pub course_id : Option Uuid
  pub amount : Option ℕ
  pub currency : Option String
  pub payment_method : Option PaymentMethod
  pub due_date : Option Instant
  pub notes : Option String
  pub discount_percent : Option ℕ
  pub tax_percent : Option ℕ

-- A given value of a nullable column replaces the old one.
abbrev pub given {ℓ} : {A : Type ℓ} → Option A → Option A → Option A
given none old = old
given (some a) old = some a

pub set_columns : UpdatePaymentDto → Instant → Payment → Payment
set_columns dto now p = record p {
  student_id = or_else dto.student_id p.student_id;
  course_id = given dto.course_id p.course_id;
  amount = or_else dto.amount p.amount;
  currency = or_else dto.currency p.currency;
  payment_method = or_else dto.payment_method p.payment_method;
  due_date = given dto.due_date p.due_date;
  notes = given dto.notes p.notes;
  discount_percent = or_else dto.discount_percent p.discount_percent;
  tax_percent = or_else dto.tax_percent p.tax_percent;
  updated_at = now;
}

module _ (db : Db) where
  unfoldable pub pay : Uuid → Uuid → Instant → Action Store Text
  pay id tenant_id now = do
    payment ← find_one db id tenant_id
    throw_if (is_paid payment.status) (bad_request "Payment already paid")
    modify (λ s. record s { payments = db.payments.update (has_id id) (set_paid now) s.payments })
    modify (λ s. record s {
      students =
          update_rows (λ a. a.id == payment.student_id) (credit payment.total_amount) s.students;
    })
    modify (λ s. record s {
      invoices =
          db.invoices.update (λ i. i.payment_id == id)
            (λ i. record i { status = InvoiceStatus.paid }) s.invoices;
    })
    emit (payment_received payment.student_id payment)
    pure payment.invoice_number

  unfoldable pub refund : Uuid → RefundDto → Uuid → Instant → Action Store ℤ
  refund id dto tenant_id now = do
    payment ← find_one db id tenant_id
    throw_if (not (is_paid payment.status)) (bad_request "Can only refund paid payments")
    let amount = refund_amount dto payment
    modify (λ s. record s {
      payments = db.payments.update (has_id id) (set_refunded amount dto.reason now) s.payments;
    })
    emit (payment_refunded payment amount tenant_id)
    pure amount

  pub update : Uuid → UpdatePaymentDto → Uuid → Instant → Action Store Payment
  update id dto tenant_id now = do
    find_one db id tenant_id
    modify (λ s. record s {
      payments = db.payments.update (has_id id) (set_columns dto now) s.payments;
    })
    find_one db id tenant_id
