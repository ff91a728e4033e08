-- ===== src/Payments/Tests.antt =====
-- Runs of the payments module on a small shop: one tenant, one student, one payment, one code.
use edu_crm_backend.Payments.Store.{in_tenant, payment_id, find_one, Store, Db}
use edu_crm_backend.Base.{
  ◌+◌, List, ◌⊎◌, refl, false, Memᴰ, arith, true, [], none, some, ◌≡◌, All, ◌∷◌,
}
use edu_crm_backend.Payments.Entities.{
  is_paid, invoice_live, discount_live, DiscountType, payment_live, Payment, Discount,
}
use edu_crm_backend.Payments.Discount.{AppliedDiscount, ApplyDiscountDto, apply_discount}
use edu_crm_backend.Payments.Create.{
  total_of, number_text, percent_of, new_payment, CreatePaymentDto,
}
use edu_crm_backend.Payments.Settle.{set_paid, refund_amount, refund, pay, RefundDto}
use edu_crm_backend.Database.InMemory.{in_memory}
use edu_crm_backend.Base.Int.{◌-ℤ◌, ◌+ℤ◌, pos}
use edu_crm_backend.Payments.Limits.{discount_id, apply_discount-WithinLimit, WithinLimit}
use edu_crm_backend.Payments.Overdue.{
  set_overdue, mark_overdue, mark_all_overdue, past_due, process_overdue_payments,
}
use edu_crm_backend.Payments.Lapse.{
  process_overdue_payments_only, process_overdue_payments_complete, process_overdue_payments_only,
}
use edu_crm_backend.Base.Action.{ok, bad_request, err}
use edu_crm_backend.Database.Rows.{UniqueBy-one}
use edu_crm_backend.Shared.Enums.{PaymentStatus}
use edu_crm_backend.Payments.Balance.{
  run_all_books, paid_now, pays, refunds, SameRow, refunds_in, pays_in,
}
use edu_crm_backend.Payments.History.{return_money, run, night, confirm, Command, run_all}
use edu_crm_backend.Payments.Once.{pay-run_all-pay, refund-run_all-refund}
use edu_crm_backend.Payments.Refunds.{pay-refund}

abbrev database : Db
database = record {
  payments = in_memory payment_live;
  discounts = in_memory discount_live;
  invoices = in_memory invoice_live;
}

abbrev order_form : CreatePaymentDto
order_form = record {
  student_id = 7;
  course_id = none;
  amount = 100000;
  currency = none;
  payment_method = none;
  due_date = some 5000;
  notes = none;
  discount_percent = some 1000;
  tax_percent = none;
}

abbrev tuition : Payment
unfolding new_payment
tuition = new_payment order_form 1 9 100 1000 (number_text 2026 1)

abbrev welcome : Discount
welcome = record {
  id = 40;
  deleted_at = none;
  tenant_id = 1;
  code = "WELCOME";
  name = "Welcome";
  description = none;
  type = DiscountType.percentage;
  value = 2000;
  valid_from = 0;
  valid_until = none;
  max_uses = some 1;
  used_count = 0;
  is_active = true;
  applicable_course_ids = none;
}

abbrev shop : Store
shop = record {
  payments = tuition ∷ [];
  discounts = welcome ∷ [];
  invoices = [];
  students = record { id = 7; total_paid = pos 0; debt_amount = pos 90000 } ∷ [];
  events = [];
}

abbrev coupon : ApplyDiscountDto
coupon = record { code = "WELCOME"; payment_id = 100; course_id = none }

abbrev whole : RefundDto
whole = record { amount = none; reason = none }

abbrev settled : Store
unfolding pay
settled = (pay database 100 1 2000 shop).1

welcome_WithinLimit : All WithinLimit shop.discounts
welcome_WithinLimit = (λ m e. omega arith, tt)

apply_discount-WithinLimit_example :
    All WithinLimit (apply_discount database coupon 1 2000 shop).1.discounts
apply_discount-WithinLimit_example =
    apply_discount-WithinLimit database coupon 1 2000 shop (UniqueBy-one discount_id welcome)
      welcome_WithinLimit

abbrev applied : AppliedDiscount
applied = record {
  discount_id = 40;
  discount_amount = 20000;
  new_total = pos 70000;
  code = "WELCOME";
}

process_overdue_payments_complete_example :
    All
      (λ r. payment_live r ≡ true → past_due 6000 r ≡ false)
      (process_overdue_payments database 6000 shop).payments
process_overdue_payments_complete_example = process_overdue_payments_complete database 6000 shop

abbrev late : Payment
unfolding new_payment
late = set_overdue 6000 tuition

process_overdue_payments_only_example :
    (r : Payment) × Memᴰ r shop.payments
    × ((late ≡ r)
        ⊎ ((payment_live r ≡ true)
            × (past_due 6000 r ≡ true)
            × (late ≡ record r { status = PaymentStatus.overdue; updated_at = 6000 })))
unfolding process_overdue_payments mark_all_overdue mark_overdue new_payment
process_overdue_payments_only_example =
    process_overdue_payments_only database 6000 shop (UniqueBy-one payment_id tuition) late
      (Memᴰ.head refl)

-- A night and a second confirmation, after the payment was paid.
abbrev quiet : List Command
quiet = night 6000 ∷ confirm 100 1 6500 ∷ []

pay-run_all-pay_example :
    let s' = run_all database quiet (pay database 100 1 2000 shop).1 in
    pay database 100 1 7000 s' ≡ (err (bad_request "Payment already paid"), s')
unfolding pay refund find_one new_payment refunds_in refunds run process_overdue_payments
    mark_all_overdue mark_overdue
pay-run_all-pay_example =
    pay-run_all-pay database 100 1 2000 7000 quiet shop (number_text 2026 1)
      (UniqueBy-one payment_id tuition) refl refl

abbrev paid_row : Payment
unfolding new_payment
paid_row = set_paid 2000 tuition

abbrev paid_shop : Store
paid_shop = record shop { payments = paid_row ∷ [] }

-- A night and a second refund, after the payment was refunded.
abbrev calm : List Command
calm = night 6000 ∷ return_money 100 whole 1 6500 ∷ []

refund-run_all-refund_example :
    let s' = run_all database calm (refund database 100 whole 1 3000 paid_shop).1 in
    refund database 100 whole 1 7000 s' ≡ (err (bad_request "Can only refund paid payments"), s')
unfolding pay refund find_one new_payment refund_amount total_of percent_of ◌+ℤ◌ ◌-ℤ◌ pays_in pays
    run process_overdue_payments mark_all_overdue mark_overdue
refund-run_all-refund_example =
    refund-run_all-refund database 100 whole whole 1 3000 7000 calm paid_shop (pos 90000)
      (UniqueBy-one payment_id paid_row) refl refl

-- Paid, refunded, and a night after.
abbrev bygone : List Command
bygone = confirm 100 1 2000 ∷ return_money 100 whole 1 3000 ∷ night 6000 ∷ []

run_all_books_example :
    (r' : Payment) × Memᴰ r' (run_all database bygone shop).payments
    × SameRow tuition r'
    × (pays_in database 100 bygone shop + paid_now tuition
        ≡ refunds_in database 100 bygone shop + paid_now r')
unfolding new_payment
run_all_books_example =
    run_all_books database bygone shop tuition (UniqueBy-one payment_id tuition) (Memᴰ.head refl)

pay-refund_example :
    let s1 = (refund database 100 whole 1 3000 paid_shop).1 in
    let (result, s2) = pay database 100 1 4000 s1 in
    (q : Payment) × (r : Payment) × (database.payments.find_one (in_tenant 100 1) s1.payments
      ≡ some q)
    × (is_paid q.status ≡ false)
    × (result ≡ ok q.invoice_number)
    × (database.payments.find_one (in_tenant 100 1) s2.payments ≡ some r)
    × (is_paid r.status ≡ true)
unfolding refund find_one new_payment refund_amount total_of percent_of ◌+ℤ◌ ◌-ℤ◌
pay-refund_example = pay-refund database 100 whole 1 3000 4000 paid_shop (pos 90000) refl
