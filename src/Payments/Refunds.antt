-- ===== src/Payments/Refunds.antt =====
-- `refund` beside `pay`: what may be refunded, what a refund records, and what may follow it.
use edu_crm_backend.Base.{
  arith, none, Bool-cases, inr, refl, ◌∙◌, and_left, inl, false, Option-cases, true, some, Bool,
  List, ◌≡◌,
}
use edu_crm_backend.Payments.Store.{has_id, in_tenant, Store, Db, find_one}
use edu_crm_backend.Payments.Settle.{set_paid, refund_amount, set_refunded, pay, RefundDto, refund}
use edu_crm_backend.Database.{Instant, Uuid}
use edu_crm_backend.Payments.Entities.{payment_live, is_paid, Payment}
use edu_crm_backend.Text.{Text}
use edu_crm_backend.Base.Int.{ℤ}
use edu_crm_backend.Base.Action.{not_found, Error, bad_request, err, ok}
use edu_crm_backend.Database.Rows.{All-update_rows_set, update_rows}
use edu_crm_backend.Database.Lookup.{find_one-update_rows, All-find_one}
use edu_crm_backend.Payments.Lifecycle.{pay_payments, pay_ok}

module _ (db : Db) where
  pub refund_missing :
      (id : Uuid) (dto : RefundDto) (tenant_id : Uuid) (now : Instant) (s : Store)
      → db.payments.find_one (in_tenant id tenant_id) s.payments ≡ none
      → refund db id dto tenant_id now s ≡ (err (not_found "Payment not found"), s)
  unfolding refund find_one
  refund_missing id dto tenant_id now s e = ground arith

  pub refund_unpaid :
      (id : Uuid) (dto : RefundDto) (tenant_id : Uuid) (now : Instant) (s : Store) (p : Payment)
      → db.payments.find_one (in_tenant id tenant_id) s.payments ≡ some p
      → is_paid p.status ≡ false
      → refund db id dto tenant_id now s ≡ (err (bad_request "Can only refund paid payments"), s)
  unfolding refund find_one
  refund_unpaid id dto tenant_id now s p e h = ground arith

  pub refund_payments :
      (id : Uuid) (dto : RefundDto) (tenant_id : Uuid) (now : Instant) (s : Store) (p : Payment)
      → db.payments.find_one (in_tenant id tenant_id) s.payments ≡ some p
      → is_paid p.status ≡ true
      → ((refund db id dto tenant_id now s).0 ≡ ok (refund_amount dto p))
        × ((refund db id dto tenant_id now s).1.payments
            ≡ update_rows
                (has_id id)
                (set_refunded (refund_amount dto p) dto.reason now)
                s.payments)
        × ((refund db id dto tenant_id now s).1.students ≡ s.students)
  unfolding refund find_one
  refund_payments id dto tenant_id now s p e h = (
    ground arith,
    ground (
      arith,
      db.payments.update_lem (has_id id) (set_refunded (refund_amount dto p) dto.reason now)
          s.payments,
    ),
    ground arith,
  )

  pub refund_ok :
      (id : Uuid) (dto : RefundDto) (tenant_id : Uuid) (now : Instant) (s : Store) (amount : ℤ)
      → (refund db id dto tenant_id now s).0 ≡ ok amount
      → (p : Payment) × (db.payments.find_one (in_tenant id tenant_id) s.payments ≡ some p)
        × (is_paid p.status ≡ true)
  refund_ok id dto tenant_id now s amount e =
      elim (Option-cases (db.payments.find_one (in_tenant id tenant_id) s.payments)) [
        | inl missed ↦ cc (refund_missing id dto tenant_id now s missed)
        | inr (p, found) ↦ elim (Bool-cases (is_paid p.status)) [
          | inl paid ↦ (p, found, paid)
          | inr unpaid ↦ cc (refund_unpaid id dto tenant_id now s p found unpaid)
        ]
      ]

  pub refund_atomic :
      (id : Uuid) (dto : RefundDto) (tenant_id : Uuid) (now : Instant) (s : Store) (e : Error)
      → (refund db id dto tenant_id now s).0 ≡ err e
      → (refund db id dto tenant_id now s).1 ≡ s
  unfolding refund find_one
  refund_atomic id dto tenant_id now s e h = ground arith

  -- What is found after an update by id has what the update set.
  found_set :
      (id tenant_id : Uuid) (f : Payment → Payment) (b : Bool) (rows : List Payment) (q : Payment)
      → ((r : Payment) → is_paid (f r).status ≡ b)
      → db.payments.find_one (in_tenant id tenant_id) (update_rows (has_id id) f rows) ≡ some q
      → is_paid q.status ≡ b
  found_set id tenant_id f b rows q sets e =
      let fits : in_tenant id tenant_id q ≡ true = db.payments.find_one_fits _ _ q e in
      let after : has_id id q ≡ true → is_paid q.status ≡ b =
        All-find_one db.payments (λ r. has_id id r ≡ true → is_paid r.status ≡ b)
          (in_tenant id tenant_id) _ q
          (All-update_rows_set (λ r. has_id id r ≡ true → is_paid r.status ≡ b) (has_id id) f rows
            (λ r h k. sets r) (λ r h k. cc (h, k)))
          e in
      after (and_left _ _ fits)

  found_again :
      (id tenant_id : Uuid) (f : Payment → Payment) (rows : List Payment) (p : Payment)
      → payment_live (f p) ≡ payment_live p
      → in_tenant id tenant_id (f p) ≡ in_tenant id tenant_id p
      → db.payments.find_one (in_tenant id tenant_id) rows ≡ some p
      → (q : Payment) × (db.payments.find_one
            (in_tenant id tenant_id)
            (update_rows (has_id id) f rows)
          ≡ some q)
  found_again id tenant_id f rows p live fit e =
      let fits : in_tenant id tenant_id p ≡ true = db.payments.find_one_fits _ _ p e in
      find_one-update_rows db.payments (in_tenant id tenant_id) (has_id id) f rows p e
        (and_left _ _ fits) (live ∙ db.payments.find_one_live _ _ p e) (fit ∙ fits)

  -- Once paid, a payment can be refunded, whatever amount the request names: the amount refunded is
  -- the one asked for, or the total where none is, and is not held against the total.
  pub refund-pay :
      (id : Uuid) (dto : RefundDto) (tenant_id : Uuid) (now later : Instant) (s : Store)
      (text : Text)
      → (pay db id tenant_id now s).0 ≡ ok text
      → (q : Payment) × (db.payments.find_one
            (in_tenant id tenant_id)
            (pay db id tenant_id now s).1.payments
          ≡ some q)
        × ((refund db id dto tenant_id later (pay db id tenant_id now s).1).0
            ≡ ok (refund_amount dto q))
  refund-pay id dto tenant_id now later s text e =
      let (p, found, unpaid) = pay_ok db id tenant_id now s text e in
      let (q, again) = found_again id tenant_id (set_paid now) s.payments p refl refl found in
      let (done, rows) = pay_payments db id tenant_id now s p found unpaid in
      let again' : db.payments.find_one (in_tenant id tenant_id)
            (pay db id tenant_id now s).1.payments
          ≡ some q =
        rw rows again in
      (
        q,
        again',
        (refund_payments id dto tenant_id later (pay db id tenant_id now s).1 q again'
            (found_set id tenant_id (set_paid now) true s.payments q (λ r. refl) again)).0,
      )

  -- After a refund that succeeds, a `pay` of the same payment, at any time, succeeds: it returns the
  -- number of the refunded payment, and the payment is found as paid again.
  pub pay-refund :
      (id : Uuid) (dto : RefundDto) (tenant_id : Uuid) (now later : Instant) (s : Store)
      (amount : ℤ)
      → (refund db id dto tenant_id now s).0 ≡ ok amount
      → let s1 = (refund db id dto tenant_id now s).1 in
        let (result, s2) = pay db id tenant_id later s1 in
        (q : Payment) × (r : Payment) × (db.payments.find_one (in_tenant id tenant_id) s1.payments
          ≡ some q)
        × (is_paid q.status ≡ false)
        × (result ≡ ok q.invoice_number)
        × (db.payments.find_one (in_tenant id tenant_id) s2.payments ≡ some r)
        × (is_paid r.status ≡ true)
  pay-refund id dto tenant_id now later s amount e =
      let (p, found, paid) = refund_ok id dto tenant_id now s amount e in
      let f : Payment → Payment = set_refunded (refund_amount dto p) dto.reason now in
      let (q, again) = found_again id tenant_id f s.payments p refl refl found in
      let (done, rows, students) = refund_payments id dto tenant_id now s p found paid in
      let s1 : Store = (refund db id dto tenant_id now s).1 in
      let back : is_paid q.status ≡ false =
        found_set id tenant_id f false s.payments q (λ r. refl) again in
      let again' : db.payments.find_one (in_tenant id tenant_id) s1.payments ≡ some q =
        rw rows again in
      let (text, rows') = pay_payments db id tenant_id later s1 q again' back in
      let (r, last) = found_again id tenant_id (set_paid later) s1.payments q refl refl again' in
      (
        q,
        r,
        again',
        back,
        text,
        rw rows' last,
        found_set id tenant_id (set_paid later) true s1.payments r (λ x. refl) last,
      )
