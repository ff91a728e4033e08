-- ===== src/Payments/Entities.antt =====
-- modules/payments/entities: the columns of a payment, a discount and an invoice, without the
-- relations, the free-form `metadata` and, of shared/entities/abstract.entity.ts, `created_by` and
-- `updated_by`, which this code never writes; `updated_at` is kept for payments, whose updates are
-- told column by column; the two columns of a student that payments change.
-- Amounts are counts of cents and percentages of hundredths. A total can be negative, so it is an
-- integer.
use edu_crm_backend.Base.{ℕ, String, Bool, true, false, Option, List}
use edu_crm_backend.Base.Int.{ℤ}
use edu_crm_backend.Database.{is_live, Uuid, Instant}
use edu_crm_backend.Text.{Text}
use edu_crm_backend.Shared.Enums.{PaymentStatus, PaymentMethod}

pub data RecurringInterval : Type 0 where
  monthly annual : RecurringInterval

pub record Payment : Type 0 where
  pub id : Uuid
  pub created_at : Instant
  pub updated_at : Instant
  pub deleted_at : Option Instant
  pub tenant_id : Uuid
  pub student_id : Uuid
  pub course_id : Option Uuid
  pub invoice_number : Text
  pub amount : ℕ
  pub currency : String
  pub discount_amount : ℕ
  pub discount_percent : ℕ
  pub tax_amount : ℕ
  pub total_amount : ℤ
  pub status : PaymentStatus
  pub payment_method : PaymentMethod
  pub due_date : Option Instant
  pub paid_at : Option Instant
  pub transaction_id : Option String
  pub external_payment_id : Option String
  pub receipt_url : Option String
  pub notes : Option String
  pub received_by : Option Uuid
  pub billing_period_start : Option Instant
  pub billing_period_end : Option Instant
  pub stripe_payment_intent_id : Option String
  pub stripe_customer_id : Option String
  pub tax_percent : ℕ
  pub is_recurring : Bool
  pub recurring_interval : Option RecurringInterval
  pub next_billing_date : Option Instant
  pub refunded_amount : ℤ
  pub refund_reason : Option String
  pub refunded_at : Option Instant
  pub invoice_url : Option String

pub data DiscountType : Type 0 where
  percentage fixed : DiscountType

pub record Discount : Type 0 where
  pub id : Uuid
  pub deleted_at : Option Instant
  pub tenant_id : Uuid
  pub code : String
  pub name : String
  pub description : Option String
  pub type : DiscountType
  pub value : ℕ
  pub valid_from : Instant
  pub valid_until : Option Instant
  pub max_uses : Option ℕ
  pub used_count : ℕ
  pub is_active : Bool
  pub applicable_course_ids : Option (List Uuid)

pub data InvoiceStatus : Type 0 where
  draft sent paid cancelled : InvoiceStatus

pub record Invoice : Type 0 where
  pub id : Uuid
  pub deleted_at : Option Instant
  pub tenant_id : Uuid
  pub payment_id : Uuid
  pub student_id : Uuid
  pub invoice_number : Text
  pub issued_at : Instant
  pub due_date : Instant
  pub subtotal : ℕ
  pub discount_amount : ℕ
  pub tax_amount : ℕ
  pub total_amount : ℤ
  pub currency : String
  pub status : InvoiceStatus
  pub pdf_url : Option String
  pub notes : Option String

-- The columns of `students` that the raw SQL of the payments code writes.
pub record Account : Type 0 where
  pub id : Uuid
  pub total_paid : ℤ
  pub debt_amount : ℤ

abbrev pub payment_live : Payment → Bool
payment_live p = is_live p.deleted_at

abbrev pub discount_live : Discount → Bool
discount_live d = is_live d.deleted_at

abbrev pub invoice_live : Invoice → Bool
invoice_live i = is_live i.deleted_at

-- `payment.status === PaymentStatus.PAID`
abbrev pub is_paid : PaymentStatus → Bool
is_paid PaymentStatus.paid = true
is_paid _ = false

abbrev pub is_pending : PaymentStatus → Bool
is_pending PaymentStatus.pending = true
is_pending _ = false

-- `status IN ('pending', 'overdue')`
abbrev pub is_unpaid : PaymentStatus → Bool
is_unpaid PaymentStatus.pending = true
is_unpaid PaymentStatus.overdue = true
is_unpaid _ = false
