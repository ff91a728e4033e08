-- ===== src/Payments/Lifecycle.antt =====
-- The life of a payment under `pay` and `refund`: what each call does to the table, on success and
-- on failure.
use edu_crm_backend.Base.{Bool-cases, inr, inl, Option-cases, ◌≡◌, true, false, none, some, arith}
use edu_crm_backend.Base.Action.{Error, ok, err, bad_request, not_found}
use edu_crm_backend.Database.{Uuid, Instant}
use edu_crm_backend.Database.Rows.{update_rows}
use edu_crm_backend.Payments.Entities.{Payment, is_paid}
use edu_crm_backend.Payments.Store.{Store, Db, in_tenant, has_id, find_one}
use edu_crm_backend.Payments.Settle.{pay, set_paid}
use edu_crm_backend.Text.{Text}

module _ (db : Db) where
  -- `pay` on a payment that is not there, that is paid, and that is not.
  pub pay_missing :
      (id tenant_id : Uuid) (now : Instant) (s : Store)
      → db.payments.find_one (in_tenant id tenant_id) s.payments ≡ none
      → pay db id tenant_id now s ≡ (err (not_found "Payment not found"), s)
  unfolding pay find_one
  pay_missing id tenant_id now s e = ground arith

  pub pay_paid :
      (id tenant_id : Uuid) (now : Instant) (s : Store) (p : Payment)
      → db.payments.find_one (in_tenant id tenant_id) s.payments ≡ some p
      → is_paid p.status ≡ true
      → pay db id tenant_id now s ≡ (err (bad_request "Payment already paid"), s)
  unfolding pay find_one
  pay_paid id tenant_id now s p e h = ground arith

  pub pay_payments :
      (id tenant_id : Uuid) (now : Instant) (s : Store) (p : Payment)
      → db.payments.find_one (in_tenant id tenant_id) s.payments ≡ some p
      → is_paid p.status ≡ false
      → ((pay db id tenant_id now s).0 ≡ ok p.invoice_number)
        × ((pay db id tenant_id now s).1.payments
            ≡ update_rows (has_id id) (set_paid now) s.payments)
  unfolding pay find_one
  pay_payments id tenant_id now s p e h =
      (ground arith, ground (arith, db.payments.update_lem (has_id id) (set_paid now) s.payments))

  pub pay_ok :
      (id tenant_id : Uuid) (now : Instant) (s : Store) (text : Text)
      → (pay db id tenant_id now s).0 ≡ ok text
      → (p : Payment) × (db.payments.find_one (in_tenant id tenant_id) s.payments ≡ some p)
        × (is_paid p.status ≡ false)
  pay_ok id tenant_id now s text e =
      elim (Option-cases (db.payments.find_one (in_tenant id tenant_id) s.payments)) [
        | inl missed ↦ cc (pay_missing id tenant_id now s missed)
        | inr (p, found) ↦ elim (Bool-cases (is_paid p.status)) [
          | inl paid ↦ cc (pay_paid id tenant_id now s p found paid)
          | inr unpaid ↦ (p, found, unpaid)
        ]
      ]

  -- `pay` is atomic: it succeeds, or it throws and leaves every table and the events alone.
  pub pay_atomic :
      (id tenant_id : Uuid) (now : Instant) (s : Store) (e : Error)
      → (pay db id tenant_id now s).0 ≡ err e
      → (pay db id tenant_id now s).1 ≡ s
  unfolding pay find_one
  pay_atomic id tenant_id now s e h = ground arith
