-- ===== src/Payments/Numbers.antt =====
-- Invoice numbers: `getNextInvoiceNumber` counts the tenant's payments.
use edu_crm_backend.Base.{
  false, refl, ◌∙◌, sym, ◌+◌, ◌∷◌, true, ap, ◌==◌, select, Bool, length, ◌≤◌, All, List, ℕ, ◌≡◌,
}
use edu_crm_backend.Payments.Create.{
  create_invoice, CreatePaymentDto, new_payment, create, next_invoice_number, number_text,
}
use edu_crm_backend.Payments.Store.{Store, Db}
use edu_crm_backend.Database.{Instant, Uuid}
use edu_crm_backend.Text.Decimal.{digits_value-pad_start, append-cancel}
use edu_crm_backend.Payments.Entities.{Payment}
use edu_crm_backend.Text.{digits_value, decimal, codes}
use edu_crm_backend.Base.Action.{ok}

pub number_text-injective : (year m n : ℕ) → number_text year m ≡ number_text year n → m ≡ n
unfolding number_text
number_text-injective year m n e =
    let a = append-cancel (codes "INV-") e in
    let b = append-cancel (decimal year) a in
    let c = append-cancel (codes "-") b in
    sym (digits_value-pad_start 6 m) ∙ (ap (digits_value 0) c ∙ digits_value-pad_start 6 n)

abbrev pub of_tenant : Uuid → Payment → Bool
of_tenant tenant_id p = p.tenant_id == tenant_id

abbrev pub tenant_count : Uuid → List Payment → ℕ
tenant_count tenant_id rows = length (select (of_tenant tenant_id) rows)

-- Every payment of the tenant has the number of one of the first payments in that year.
abbrev pub NumbersBelow : ℕ → Uuid → List Payment → ℕ → Type 0
NumbersBelow year tenant_id rows bound =
    All
      (λ p.
        of_tenant tenant_id p ≡ true
        → (k : ℕ) × (k ≤ bound) × (p.invoice_number ≡ number_text year k))
      rows

module _ (db : Db) where
  create_payments :
      (dto : CreatePaymentDto) (tenant_id created_by payment_id invoice_id : Uuid) (year : ℕ)
      (now : Instant) (s : Store)
      → (create db dto tenant_id created_by payment_id invoice_id year now s).1.payments
        ≡ new_payment dto tenant_id created_by payment_id now (next_invoice_number year tenant_id s)
          ∷ s.payments
  unfolding create create_invoice
  create_payments dto tenant_id created_by payment_id invoice_id year now s =
      db.payments.insert_lem
        (new_payment dto tenant_id created_by payment_id now (next_invoice_number year tenant_id s))
        s.payments

  created :
      (dto : CreatePaymentDto) (tenant_id created_by payment_id invoice_id : Uuid) (year : ℕ)
      (now : Instant) (s : Store)
      → (create db dto tenant_id created_by payment_id invoice_id year now s).0
        ≡ ok (
            new_payment dto tenant_id created_by payment_id now
              (next_invoice_number year tenant_id s))
  unfolding create create_invoice
  created dto tenant_id created_by payment_id invoice_id year now s = refl

  -- The numbers are counted for each tenant apart: where two tenants have as many payments, a
  -- payment created for the one and then one for the other in the same year have the same number.
  pub number_collision :
      (dto dto' : CreatePaymentDto)
      (t u created_by payment_id invoice_id payment_id' invoice_id' : Uuid) (year : ℕ)
      (now later : Instant) (s : Store)
      → (t == u) ≡ false
      → tenant_count t s.payments ≡ tenant_count u s.payments
      → let first = create db dto t created_by payment_id invoice_id year now s in
        (p : Payment) × (q : Payment) × (first.0 ≡ ok p)
        × ((create db dto' u created_by payment_id' invoice_id' year later first.1).0 ≡ ok q)
        × (p.invoice_number ≡ q.invoice_number)
  unfolding next_invoice_number new_payment
  number_collision dto dto' t u created_by payment_id invoice_id payment_id' invoice_id' year now
        later s apart e =
      let s' = (create db dto t created_by payment_id invoice_id year now s).1 in
      let rows = create_payments dto t created_by payment_id invoice_id year now s in
      let count : tenant_count u s'.payments ≡ tenant_count u s.payments =
        rw rows (rw apart refl) in
      (
        _,
        _,
        created dto t created_by payment_id invoice_id year now s,
        created dto' u created_by payment_id' invoice_id' year later s',
        ap (λ k. number_text year (k + 1)) (e ∙ sym count),
      )
