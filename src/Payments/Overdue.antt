-- ===== src/Payments/Overdue.antt =====
-- `getDebtSummary` of modules/payments/payments.service.ts, and `processOverduePayments` of
-- modules/scheduler/scheduler.service.ts, which runs every night.
use edu_crm_backend.Base.{
  ℕ, ◌+◌, Bool, false, ◌&&◌, Option, none, some, List, [], ◌∷◌, ltb, ◌==◌, length, map,
}
use edu_crm_backend.Base.Int.{ℤ, pos, ◌+ℤ◌}
use edu_crm_backend.Base.Action.{Action, pure, gets, ◌>>=◌}
use edu_crm_backend.Database.{Uuid, Instant}
use edu_crm_backend.Database.Rows.{update_rows}
use edu_crm_backend.Shared.Enums.{PaymentStatus}
use edu_crm_backend.Payments.Entities.{Payment, is_unpaid, is_pending}
use edu_crm_backend.Payments.Store.{payment_overdue, Store, Db, has_id}

-- The sum of the amounts over a list of payments, as `getDebtSummary` adds them up.
pub sum_amounts : ℕ → List Payment → ℕ
sum_amounts sum [] = sum
sum_amounts sum (p ∷ ps) = sum_amounts (sum + p.amount) ps

pub record OverdueItem : Type 0 where
  pub id : Uuid
  pub amount : ℕ
  pub due_date : Option Instant

pub record DebtSummary : Type 0 where
  pub student_id : Uuid
  pub total_debt : ℕ
  pub overdue_count : ℕ
  pub overdue_payments : List OverdueItem

-- `where: [{ studentId, tenantId, status: OVERDUE }, { studentId, tenantId, status: PENDING }]`
abbrev pub owed_by : Uuid → Uuid → Payment → Bool
owed_by student_id tenant_id p =
    p.student_id == student_id && (p.tenant_id == tenant_id && is_unpaid p.status)

-- `SUM(p.totalAmount)` over the rows that fit; 0 where there is none.
pub sum_totals : List Payment → ℤ
sum_totals [] = pos 0
sum_totals (p ∷ ps) = p.total_amount +ℤ sum_totals ps

-- `status: PENDING, dueDate: LessThan(new Date())`
abbrev pub past_due : Instant → Payment → Bool
past_due now p = is_pending p.status && elim p.due_date [ none ↦ false | some t ↦ ltb t now ]

-- `update(payment.id, { status: OVERDUE })`
abbrev pub set_overdue : Instant → Payment → Payment
set_overdue now p = record p { status = PaymentStatus.overdue; updated_at = now }

module _ (db : Db) where
  pub get_debt_summary : Uuid → Uuid → Action Store DebtSummary
  get_debt_summary student_id tenant_id = do
    payments ← gets (λ s. db.payments.find (owed_by student_id tenant_id) s.payments)
    pure (record {
      student_id = student_id;
      total_debt = sum_amounts 0 payments;
      overdue_count = length payments;
      overdue_payments =
          map (λ p. record { id = p.id; amount = p.amount; due_date = p.due_date }) payments;
    })

  -- One round of the loop: mark the payment, then write the student's debt anew.
  unfoldable pub mark_overdue : Instant → Payment → Store → Store
  mark_overdue now payment s =
      let payments = db.payments.update (has_id payment.id) (set_overdue now) s.payments in
      let debt =
        sum_totals (db.payments.find (owed_by payment.student_id payment.tenant_id) payments) in
      record s {
        payments = payments;
        students =
            update_rows (λ a. a.id == payment.student_id) (λ a. record a { debt_amount = debt })
              s.students;
        events = payment_overdue payment ∷ s.events;
      }

  unfoldable pub mark_all_overdue : Instant → List Payment → Store → Store
  mark_all_overdue now [] s = s
  mark_all_overdue now (p ∷ ps) s = mark_all_overdue now ps (mark_overdue now p s)

  unfoldable pub process_overdue_payments : Instant → Store → Store
  unfolding mark_overdue mark_all_overdue
  process_overdue_payments now s =
      mark_all_overdue now (db.payments.find (past_due now) s.payments) s
