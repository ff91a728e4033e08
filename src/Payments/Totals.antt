-- ===== src/Payments/Totals.antt =====
-- The amounts of a new payment.
use edu_crm_backend.Base.{arith, ◌*◌, ◌+◌, ◌<◌, or_else, none, ◌≤◌, ℕ, ◌≡◌}
use edu_crm_backend.Payments.Create.{CreatePaymentDto, total_of, new_payment, percent_of}
use edu_crm_backend.Database.{Instant, Uuid}
use edu_crm_backend.Text.{Text}
use edu_crm_backend.Base.Int.{◌-ℤ◌, int_laws, ◌+ℤ◌, ◌≤ℤ◌, pos}

prod-le : (amount percent : ℕ) → percent ≤ 10000 → amount * percent ≤ amount * 10000
prod-le amount percent h = grind arith

percent_of_le : (amount percent : ℕ) → percent ≤ 10000 → percent_of amount percent ≤ amount
unfolding percent_of
percent_of_le amount percent h = ground (arith, prod-le amount percent h)

-- With a discount of at most 100 percent the discount is at most the amount, the total is not
-- negative, and the total and the discount together make the amount and the tax.
pub new_payment_total :
    (dto : CreatePaymentDto) (tenant_id created_by new_id : Uuid) (now : Instant) (number : Text)
    → or_else dto.discount_percent 0 ≤ 10000
    → let p = new_payment dto tenant_id created_by new_id now number in
      (p.discount_amount ≤ p.amount)
      × (pos 0 ≤ℤ p.total_amount)
      × (p.total_amount +ℤ pos p.discount_amount ≡ pos (p.amount + p.tax_amount))
unfolding new_payment total_of
new_payment_total dto tenant_id created_by new_id now number h =
    let d : ℕ = percent_of dto.amount (or_else dto.discount_percent 0) in
    let le : d ≤ dto.amount = percent_of_le dto.amount (or_else dto.discount_percent 0) h in
    (le, omega int_laws, omega int_laws)

-- The request is not held to 100 percent: a larger discount without tax makes the total negative
-- as soon as it exceeds the amount by a cent.
pub new_payment_negative :
    (dto : CreatePaymentDto) (tenant_id created_by new_id : Uuid) (now : Instant) (number : Text)
    → dto.tax_percent ≡ none
    → dto.amount < percent_of dto.amount (or_else dto.discount_percent 0)
    → ¬ (pos 0 ≤ℤ (new_payment dto tenant_id created_by new_id now number).total_amount)
unfolding new_payment total_of percent_of
new_payment_negative dto tenant_id created_by new_id now number t h k =
    let k' : pos 0
        ≤ℤ (pos dto.amount -ℤ pos (percent_of dto.amount (or_else dto.discount_percent 0)))
          +ℤ pos 0 =
      rw t at k in
    absurd (omega int_laws)
