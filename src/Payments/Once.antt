-- ===== src/Payments/Once.antt =====
-- How often a payment is settled and refunded: once, until the other happens.
use edu_crm_backend.Base.{
  ℕ, ◌+◌, ◌≡◌, true, false, and_left, Bool-cases, inl, inr, List, Memᴰ, arith,
}
use edu_crm_backend.Base.Int.{ℤ}
use edu_crm_backend.Base.Action.{ok, err, bad_request}
use edu_crm_backend.Database.{Uuid, Instant}
use edu_crm_backend.Database.Rows.{UniqueBy, mem-update_rows_hit}
use edu_crm_backend.Payments.Entities.{Payment, is_paid}
use edu_crm_backend.Payments.Store.{Store, Db, payment_id, has_id, in_tenant}
use edu_crm_backend.Payments.Settle.{RefundDto, pay, refund, refund_amount, set_paid, set_refunded}
use edu_crm_backend.Payments.Lifecycle.{pay_ok, pay_payments, pay_paid}
use edu_crm_backend.Payments.Refunds.{refund_ok, refund_payments, refund_unpaid}
use edu_crm_backend.Payments.History.{Command, confirm, return_money, run, run_all, run_unique}
use edu_crm_backend.Text.{Text}
use edu_crm_backend.Payments.Balance.{paid_now, pays_in, refunds_in, found_after}

module _ (db : Db) where
  paid_at_end : (n : ℕ) (p : Payment) → n + 1 ≡ 0 + paid_now p → is_paid p.status ≡ true
  paid_at_end n p e = elim (Bool-cases (is_paid p.status)) [
    | inl paid ↦ paid
    | inr unpaid ↦ absurd (omega (arith, rw unpaid at e))
  ]

  unpaid_at_end : (n : ℕ) (p : Payment) → 0 + 0 ≡ n + paid_now p → is_paid p.status ≡ false
  unpaid_at_end n p e = elim (Bool-cases (is_paid p.status)) [
    | inl paid ↦ absurd (omega (arith, rw paid at e))
    | inr unpaid ↦ unpaid
  ]

  -- A payment is settled once until it is refunded: over a table with unique ids, after a `pay` that
  -- succeeds, whatever payments, refunds and nightly jobs follow among which no refund of that
  -- payment succeeds, another `pay` of it, at any time, is refused as already paid and changes
  -- nothing.
  pub pay-run_all-pay :
      (id tenant_id : Uuid) (now later : Instant) (cs : List Command) (s : Store) (text : Text)
      → UniqueBy payment_id s.payments
      → (pay db id tenant_id now s).0 ≡ ok text
      → refunds_in db id cs (pay db id tenant_id now s).1 ≡ 0
      → let s' = run_all db cs (pay db id tenant_id now s).1 in
        pay db id tenant_id later s' ≡ (err (bad_request "Payment already paid"), s')
  unfolding run
  pay-run_all-pay id tenant_id now later cs s text unique done none_back =
      let (p, found, unpaid) = pay_ok db id tenant_id now s text done in
      let (_, rows) = pay_payments db id tenant_id now s p found unpaid in
      let fits : in_tenant id tenant_id p ≡ true = db.payments.find_one_fits _ _ p found in
      let m = db.payments.find_one_listed _ _ p found in
      let s1 : Store = (pay db id tenant_id now s).1 in
      let k : Memᴰ (set_paid now p) s1.payments =
        rw rows (mem-update_rows_hit (has_id id) (set_paid now) s.payments m (and_left _ _ fits)) in
      let (r', again, books) =
        found_after db id tenant_id cs s1 (set_paid now p)
          (run_unique db (confirm id tenant_id now) s unique) k fits
          (db.payments.find_one_live _ _ p found) in
      pay_paid db id tenant_id later (run_all db cs s1) r' again
        (paid_at_end (pays_in db id cs s1) r' (rw none_back at books))

  -- A payment is refunded once until it is paid again: over a table with unique ids, after a refund
  -- that succeeds, whatever payments, refunds and nightly jobs follow among which no `pay` of that
  -- payment succeeds, another refund of it, for any amount, is refused and changes nothing.
  pub refund-run_all-refund :
      (id : Uuid) (dto dto' : RefundDto) (tenant_id : Uuid) (now later : Instant)
      (cs : List Command) (s : Store) (amount : ℤ)
      → UniqueBy payment_id s.payments
      → (refund db id dto tenant_id now s).0 ≡ ok amount
      → pays_in db id cs (refund db id dto tenant_id now s).1 ≡ 0
      → let s' = run_all db cs (refund db id dto tenant_id now s).1 in
        refund db id dto' tenant_id later s'
        ≡ (err (bad_request "Can only refund paid payments"), s')
  unfolding run
  refund-run_all-refund id dto dto' tenant_id now later cs s amount unique done none_paid =
      let (p, found, paid) = refund_ok db id dto tenant_id now s amount done in
      let (_, rows, _) = refund_payments db id dto tenant_id now s p found paid in
      let f : Payment → Payment = set_refunded (refund_amount dto p) dto.reason now in
      let fits : in_tenant id tenant_id p ≡ true = db.payments.find_one_fits _ _ p found in
      let m = db.payments.find_one_listed _ _ p found in
      let s1 : Store = (refund db id dto tenant_id now s).1 in
      let k : Memᴰ (f p) s1.payments =
        rw rows (mem-update_rows_hit (has_id id) f s.payments m (and_left _ _ fits)) in
      let (r', again, books) =
        found_after db id tenant_id cs s1 (f p)
          (run_unique db (return_money id dto tenant_id now) s unique) k fits
          (db.payments.find_one_live _ _ p found) in
      refund_unpaid db id dto' tenant_id later (run_all db cs s1) r' again
        (unpaid_at_end (refunds_in db id cs s1) r' (rw none_paid at books))
