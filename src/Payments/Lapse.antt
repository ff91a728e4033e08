-- ===== src/Payments/Lapse.antt =====
-- The nightly job of modules/scheduler/scheduler.service.ts: which payments it turns overdue.
use mathlib.Core.Path.{subst}
use edu_crm_backend.Base.{
  ◌∙◌, and_right, refl, and_left, ==_refl, and_both, All-mem, sym, ap, All-of_mem, true, inr,
  ==_iff, Bool-cases, ◌⊎◌, [], false, ◌==◌, ◌∷◌, All, inl, Memᴰ, List, ◌≡◌,
}
use edu_crm_backend.Payments.Overdue.{
  set_overdue, past_due, process_overdue_payments, mark_all_overdue, mark_overdue,
}
use edu_crm_backend.Payments.Store.{payment_id, has_id, Store, Db}
use edu_crm_backend.Payments.Entities.{payment_live, Payment}
use edu_crm_backend.Database.Rows.{
  mem-select_of, mem-select, UniqueBy, mem-update_rows_inv, update_rows,
}
use edu_crm_backend.Database.{Instant}
use edu_crm_backend.Shared.Enums.{PaymentStatus}

module _ (db : Db) where
  pub mark_overdue_payments :
      (now : Instant) (p : Payment) (s : Store)
      → (mark_overdue db now p s).payments ≡ update_rows (has_id p.id) (set_overdue now) s.payments
  unfolding mark_overdue
  mark_overdue_payments now p s = db.payments.update_lem (has_id p.id) (set_overdue now) s.payments

  -- A row after the loop is a row before that no payment of the list has the id of, or such a row
  -- made overdue.
  abbrev Lapsed : Instant → List Payment → List Payment → Payment → Type 0
  Lapsed now ps rows r' =
      (r : Payment) × Memᴰ r rows
      × ((All (λ p. (r.id == p.id) ≡ false) ps × (r' ≡ r))
          ⊎ ((p : Payment) × Memᴰ p ps × (r.id ≡ p.id) × (r' ≡ set_overdue now r)))

  step_Lapsed :
      (now : Instant) (p : Payment) (ps rows : List Payment) (r' : Payment)
      → Lapsed now ps (update_rows (has_id p.id) (set_overdue now) rows) r'
      → Lapsed now (p ∷ ps) rows r'
  step_Lapsed now p ps rows r' (r, m, how) =
      let (x, k, e) = mem-update_rows_inv (has_id p.id) (set_overdue now) rows m in
      elim (Bool-cases (has_id p.id x)) [
        | inl hit ↦
            let same : x.id ≡ p.id = (==_iff _ _).0 hit in
            let e' : r ≡ set_overdue now x = rw hit at e in
            elim how [
              | inl (others, f) ↦ (x, k, inr (p, Memᴰ.head refl, same, f ∙ e'))
              | inr (q, mq, i, f) ↦
                  (x, k, inr (p, Memᴰ.head refl, same, f ∙ ap (set_overdue now) e'))
            ]
        | inr miss ↦
            let e' : r ≡ x = rw miss at e in
            elim how [
              | inl (others, f) ↦ (
                x,
                k,
                inl ((miss, subst (λ y. All (λ p. (y.id == p.id) ≡ false) ps) e' others), f ∙ e'),
              )
              | inr (q, mq, i, f) ↦ (
                x,
                k,
                inr (q, Memᴰ.tail mq, sym (ap payment_id e') ∙ i, f ∙ ap (set_overdue now) e'),
              )
            ]
      ]

  mark_all_overdue-Lapsed :
      (now : Instant) (ps : List Payment) (s : Store) (r' : Payment)
      → Memᴰ r' (mark_all_overdue db now ps s).payments
      → Lapsed now ps s.payments r'
  unfolding mark_all_overdue
  mark_all_overdue-Lapsed now [] s r' m = (r', m, inl (tt, refl))
  mark_all_overdue-Lapsed now (p ∷ ps) s r' m = step_Lapsed now p ps s.payments r' (
      rw (mark_overdue_payments now p s) at
        (mark_all_overdue-Lapsed now ps (mark_overdue db now p s) r' m))

  -- After the nightly job no payment that `find` can see is pending and past its due date.
  pub process_overdue_payments_complete :
      (now : Instant) (s : Store)
      → All
          (λ r. payment_live r ≡ true → past_due now r ≡ false)
          (process_overdue_payments db now s).payments
  unfolding process_overdue_payments
  process_overdue_payments_complete now s =
      All-of_mem (λ r. payment_live r ≡ true → past_due now r ≡ false) _
        λ r' m live.
          let found = db.payments.find (past_due now) s.payments in
          let (r, k, how) = mark_all_overdue-Lapsed now found s r' m in
          elim how [
            | inl (others, e) ↦ elim (Bool-cases (past_due now r')) [
              | inl due ↦ cc (
                All-mem (λ p. (r.id == p.id) ≡ false) found others
                    ((db.payments.find_iff (past_due now) s.payments r).1
                      (mem-select_of _ s.payments k (rw e at (and_both _ _ live due)))),
                ==_refl r.id,
              )
              | inr fine ↦ fine
            ]
            | inr (p, mp, i, e) ↦ rw e refl
          ]

  -- With unique ids, every row after the nightly job is a row before, untouched, or a live row before
  -- that was pending and past its due date, with the status overdue and the time of the job as that
  -- of its last update, and no other of the modelled columns changed.
  pub process_overdue_payments_only :
      (now : Instant) (s : Store)
      → UniqueBy payment_id s.payments
      → (r' : Payment) → Memᴰ r' (process_overdue_payments db now s).payments
      → (r : Payment) × Memᴰ r s.payments
        × ((r' ≡ r)
            ⊎ ((payment_live r ≡ true)
                × (past_due now r ≡ true)
                × (r' ≡ record r { status = PaymentStatus.overdue; updated_at = now })))
  unfolding process_overdue_payments
  process_overdue_payments_only now s unique r' m =
      let found = db.payments.find (past_due now) s.payments in
      let (r, k, how) = mark_all_overdue-Lapsed now found s r' m in
      elim how [
        | inl (others, e) ↦ (r, k, inl e)
        | inr (p, mp, i, e) ↦
            let (listed, due) =
              mem-select _ s.payments ((db.payments.find_iff (past_due now) s.payments p).0 mp) in
            let same : r ≡ p = unique r p k listed i in
            let alive : payment_live p ≡ true = and_left (payment_live p) (past_due now p) due in
            let late : past_due now p ≡ true = and_right (payment_live p) (past_due now p) due in
            (r, k, inr (ap payment_live same ∙ alive, ap (past_due now) same ∙ late, e))
      ]
