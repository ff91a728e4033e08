-- ===== src/Payments/History.antt =====
-- Histories: payments, refunds and nights, one after another, in any order.
use edu_crm_backend.Payments.Store.{payment_id, has_id, Store, Db}
use edu_crm_backend.Payments.Entities.{Payment}
use edu_crm_backend.Database.Rows.{mem-update_rows_inv, update_rows, UniqueBy}
use edu_crm_backend.Base.{
  ap, sym, Bool-cases, [], refl, if◌then◌else◌, ◌∙◌, inr, inl, ◌≡◌, Bool, ◌∷◌, List,
}
use edu_crm_backend.Payments.Settle.{refund_amount, set_refunded, set_paid, RefundDto, refund, pay}
use edu_crm_backend.Payments.Overdue.{
  set_overdue, past_due, mark_overdue, mark_all_overdue, process_overdue_payments,
}
use edu_crm_backend.Database.{Instant, Uuid}
use edu_crm_backend.Base.Action.{Result-cases}
use edu_crm_backend.Payments.Lifecycle.{pay_payments, pay_ok, pay_atomic}
use edu_crm_backend.Payments.Lapse.{mark_overdue_payments}
use edu_crm_backend.Payments.Refunds.{refund_payments, refund_ok, refund_atomic}

pub data Command : Type 0 where
  confirm : Uuid → Uuid → Instant → Command
  return_money : Uuid → RefundDto → Uuid → Instant → Command
  night : Instant → Command

UniqueBy-update_rows :
    (q : Payment → Bool) (f : Payment → Payment) (rows : List Payment)
    → UniqueBy payment_id rows
    → ((r : Payment) → (f r).id ≡ r.id)
    → UniqueBy payment_id (update_rows q f rows)
UniqueBy-update_rows q f rows unique keeps a b ma mb e =
    let (x, mx, ex) = mem-update_rows_inv q f rows ma in
    let (y, my, ey) = mem-update_rows_inv q f rows mb in
    let same : x ≡ y = unique x y mx my (
      sym (set_id q f keeps x)
      ∙ (ap payment_id (sym ex) ∙ (e ∙ (ap payment_id ey ∙ set_id q f keeps y)))) in
    ex ∙ (ap (λ z. if q z then f z else z) same ∙ sym ey)
  where
    set_id :
        (q : Payment → Bool) (f : Payment → Payment)
        → ((r : Payment) → (f r).id ≡ r.id)
        → (r : Payment) → payment_id (if q r then f r else r) ≡ payment_id r
    set_id q f keeps r = elim (Bool-cases (q r)) [
      | inl hit ↦ rw hit (keeps r)
      | inr miss ↦ rw miss refl
    ]

module _ (db : Db) where
  unfoldable pub run : Command → Store → Store
  run (confirm id tenant_id now) s = (pay db id tenant_id now s).1
  run (return_money id dto tenant_id now) s = (refund db id dto tenant_id now s).1
  run (night now) s = process_overdue_payments db now s

  unfoldable pub run_all : List Command → Store → Store
  unfolding run
  run_all [] s = s
  run_all (c ∷ cs) s = run_all cs (run c s)

  nights_unique :
      (now : Instant) (ps : List Payment) (s : Store)
      → UniqueBy payment_id s.payments
      → UniqueBy payment_id (mark_all_overdue db now ps s).payments
  unfolding mark_all_overdue
  nights_unique now [] s h = h
  nights_unique now (p ∷ ps) s h = nights_unique now ps (mark_overdue db now p s) (
      rw (mark_overdue_payments db now p s)
        (UniqueBy-update_rows (has_id p.id) (set_overdue now) s.payments h (λ r. refl)))

  pub run_unique :
      (c : Command) (s : Store)
      → UniqueBy payment_id s.payments
      → UniqueBy payment_id (run c s).payments
  unfolding run process_overdue_payments
  run_unique (confirm id tenant_id now) s h = elim (Result-cases (pay db id tenant_id now s).0) [
    | inl (e, failed) ↦ rw (pay_atomic db id tenant_id now s e failed) h
    | inr (text, done) ↦
        let (p, found, unpaid) = pay_ok db id tenant_id now s text done in
        rw (pay_payments db id tenant_id now s p found unpaid).1
          (UniqueBy-update_rows (has_id id) (set_paid now) s.payments h (λ r. refl))
  ]
  run_unique (return_money id dto tenant_id now) s h =
      elim (Result-cases (refund db id dto tenant_id now s).0) [
        | inl (e, failed) ↦ rw (refund_atomic db id dto tenant_id now s e failed) h
        | inr (amount, done) ↦
            let (p, found, paid) = refund_ok db id dto tenant_id now s amount done in
            let (_, rows, _) = refund_payments db id dto tenant_id now s p found paid in
            rw rows (
              UniqueBy-update_rows (has_id id) (set_refunded (refund_amount dto p) dto.reason now)
                s.payments h (λ r. refl))
      ]
  run_unique (night now) s h = nights_unique now (db.payments.find (past_due now) s.payments) s h

  -- Ids stay unique.
  pub run_all_unique :
      (cs : List Command) (s : Store)
      → UniqueBy payment_id s.payments
      → UniqueBy payment_id (run_all cs s).payments
  unfolding run_all
  run_all_unique [] s h = h
  run_all_unique (c ∷ cs) s h = run_all_unique cs (run c s) (run_unique c s h)
