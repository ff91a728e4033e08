-- ===== src/Payments/Balance.antt =====
-- The books of a payment over a history of payments, refunds and nights: how often it was paid and
-- refunded, and what follows for the next call.
use edu_crm_backend.Base.{
  ℕ, ◌+◌, ◌≡◌, refl, sym, ap, ◌∙◌, Bool, true, false, ◌&&◌, ◌==◌, ==_iff, and_left, and_right,
  if◌then◌else◌, Bool-cases, inl, inr, List, [], ◌∷◌, Memᴰ, All, All-of_mem, some, arith,
}
use edu_crm_backend.Base.Action.{Result, Result-cases, ok, err}
use edu_crm_backend.Database.{Uuid, Instant}
use edu_crm_backend.Database.Rows.{UniqueBy, mem-update_rows, mem-update_rows_hit, mem-select}
use edu_crm_backend.Database.Lookup.{find_one_total}
use edu_crm_backend.Shared.Enums.{PaymentStatus}
use edu_crm_backend.Payments.Entities.{Payment, payment_live, is_paid, is_pending}
use edu_crm_backend.Payments.Store.{Store, Db, payment_id, has_id, in_tenant}
use edu_crm_backend.Payments.Settle.{pay, refund, refund_amount, set_paid, set_refunded}
use edu_crm_backend.Payments.Overdue.{
  past_due, set_overdue, mark_overdue, mark_all_overdue, process_overdue_payments,
}
use edu_crm_backend.Payments.Lapse.{mark_overdue_payments}
use edu_crm_backend.Payments.Lifecycle.{pay_atomic, pay_ok, pay_payments}
use edu_crm_backend.Payments.Refunds.{refund_atomic, refund_ok, refund_payments}
use edu_crm_backend.Payments.History.{
  Command, confirm, return_money, night, run, run_all, run_unique, run_all_unique,
}

abbrev pub succeeds : {A : Type 0} → Result A → Bool
succeeds (ok a) = true
succeeds (err e) = false

-- 1 for a payment that is paid at present.
abbrev pub paid_now : Payment → ℕ
paid_now p = if is_paid p.status then 1 else 0

-- The same row later: its id, its tenant and whether it is deleted.
abbrev pub SameRow : Payment → Payment → Type 0
SameRow r r' = (r'.id ≡ r.id) × (r'.tenant_id ≡ r.tenant_id) × (payment_live r' ≡ payment_live r)

pending_unpaid : (a : PaymentStatus) → is_pending a ≡ true → is_paid a ≡ false
pending_unpaid PaymentStatus.paid h = cc
pending_unpaid _ h = refl

module _ (db : Db) where
  -- 1 for a `pay` of the payment that succeeds, and for a `refund` of it.
  unfoldable pub pays : Uuid → Command → Store → ℕ
  pays id (confirm i tenant_id now) s =
      if id == i && succeeds (pay db i tenant_id now s).0 then 1 else 0
  pays id (return_money i dto tenant_id now) s = 0
  pays id (night now) s = 0

  unfoldable pub refunds : Uuid → Command → Store → ℕ
  refunds id (confirm i tenant_id now) s = 0
  refunds id (return_money i dto tenant_id now) s =
      if id == i && succeeds (refund db i dto tenant_id now s).0 then 1 else 0
  refunds id (night now) s = 0

  -- How often the payment is paid, and refunded, in a history.
  unfoldable pub pays_in : Uuid → List Command → Store → ℕ
  unfolding pays
  pays_in id [] s = 0
  pays_in id (c ∷ cs) s = pays id c s + pays_in id cs (run db c s)

  unfoldable pub refunds_in : Uuid → List Command → Store → ℕ
  unfolding refunds
  refunds_in id [] s = 0
  refunds_in id (c ∷ cs) s = refunds id c s + refunds_in id cs (run db c s)

  -- What the nightly loop makes of a row, none of whose entries in the list is paid.
  night_row :
      (now : Instant) (ps : List Payment) (s : Store) (r : Payment)
      → Memᴰ r s.payments
      → All (λ p. (r.id == p.id) ≡ true → is_paid r.status ≡ false) ps
      → (r' : Payment) × Memᴰ r' (mark_all_overdue db now ps s).payments
        × SameRow r r'
        × (is_paid r'.status ≡ is_paid r.status)
  unfolding mark_all_overdue
  night_row now [] s r m h = (r, m, (refl, refl, refl), refl)
  night_row now (p ∷ ps) s r m (h, hs) =
      let after = mark_overdue_payments db now p s in
      let k = mem-update_rows (has_id p.id) (set_overdue now) s.payments m in
      elim (Bool-cases (r.id == p.id)) [
        | inl hit ↦
            let unpaid = h hit in
            let (r', m', (i, t, l), e) =
              night_row now ps (mark_overdue db now p s) (set_overdue now r)
                (rw (after) (rw hit at k)) (All-of_mem _ ps (λ q n g. refl)) in
            (r', m', (i, t, l), e ∙ sym unpaid)
        | inr miss ↦ night_row now ps (mark_overdue db now p s) r (rw (after) (rw miss at k)) hs
      ]

  -- The row that is found by an id is the row with the id.
  the_row :
      (i tenant_id : Uuid) (s : Store) (r p : Payment)
      → UniqueBy payment_id s.payments
      → Memᴰ r s.payments
      → db.payments.find_one (in_tenant i tenant_id) s.payments ≡ some p
      → (r.id == i) ≡ true
      → p ≡ r
  the_row i tenant_id s r p unique m found hit =
      let fits : in_tenant i tenant_id p ≡ true = db.payments.find_one_fits _ _ p found in
      let own : p.id ≡ i = (==_iff _ _).0 (and_left _ _ fits) in
      unique p r (db.payments.find_one_listed _ _ p found) m (own ∙ sym ((==_iff r.id i).0 hit))

  -- What the nightly job selects is pending, hence not paid.
  listed_unpaid :
      (now : Instant) (s : Store) (r : Payment)
      → UniqueBy payment_id s.payments
      → Memᴰ r s.payments
      → (p : Payment) → Memᴰ p (db.payments.find (past_due now) s.payments)
      → (r.id == p.id) ≡ true
      → is_paid r.status ≡ false
  listed_unpaid now s r unique m p listed hit =
      let (k, due) =
        mem-select _ s.payments ((db.payments.find_iff (past_due now) s.payments p).0 listed) in
      let late : past_due now p ≡ true = and_right (payment_live p) (past_due now p) due in
      let same : p ≡ r = unique p r k m (sym ((==_iff r.id p.id).0 hit)) in
      ap (λ x. is_paid x.status) (sym same) ∙ pending_unpaid p.status (and_left _ _ late)

  -- One command keeps the books of a row.
  step_books :
      (c : Command) (s : Store) (r : Payment)
      → UniqueBy payment_id s.payments
      → Memᴰ r s.payments
      → (r' : Payment) × Memᴰ r' (run db c s).payments
        × SameRow r r'
        × (pays r.id c s + paid_now r ≡ refunds r.id c s + paid_now r')
  unfolding run pays refunds process_overdue_payments
  step_books (confirm i tenant_id now) s r unique m =
      elim (Result-cases (pay db i tenant_id now s).0) [
        | inl (e, failed) ↦
            (r, rw (pay_atomic db i tenant_id now s e failed) m, (refl, refl, refl), ground arith)
        | inr (text, done) ↦
            let (p, found, unpaid) = pay_ok db i tenant_id now s text done in
            let (_, rows) = pay_payments db i tenant_id now s p found unpaid in
            elim (Bool-cases (r.id == i)) [
              | inl hit ↦
                  let same : p ≡ r = the_row i tenant_id s r p unique m found hit in
                  let open_ : is_paid r.status ≡ false =
                    ap (λ x. is_paid x.status) (sym same) ∙ unpaid in
                  (
                    set_paid now r,
                    rw rows (mem-update_rows_hit (has_id i) (set_paid now) s.payments m hit),
                    (refl, refl, refl),
                    rw (hit, done, open_) refl,
                  )
              | inr miss ↦ (
                r,
                rw rows (rw miss at (mem-update_rows (has_id i) (set_paid now) s.payments m)),
                (refl, refl, refl),
                rw miss refl,
              )
            ]
      ]
  step_books (return_money i dto tenant_id now) s r unique m =
      elim (Result-cases (refund db i dto tenant_id now s).0) [
        | inl (e, failed) ↦ (
          r,
          rw (refund_atomic db i dto tenant_id now s e failed) m,
          (refl, refl, refl),
          ground arith,
        )
        | inr (amount, done) ↦
            let (p, found, paid) = refund_ok db i dto tenant_id now s amount done in
            let (_, rows, _) = refund_payments db i dto tenant_id now s p found paid in
            let f : Payment → Payment = set_refunded (refund_amount dto p) dto.reason now in
            elim (Bool-cases (r.id == i)) [
              | inl hit ↦
                  let same : p ≡ r = the_row i tenant_id s r p unique m found hit in
                  let had : is_paid r.status ≡ true =
                    ap (λ x. is_paid x.status) (sym same) ∙ paid in
                  (
                    f r,
                    rw rows (mem-update_rows_hit (has_id i) f s.payments m hit),
                    (refl, refl, refl),
                    rw (hit, done, had) refl,
                  )
              | inr miss ↦ (
                r,
                rw rows (rw miss at (mem-update_rows (has_id i) f s.payments m)),
                (refl, refl, refl),
                rw miss refl,
              )
            ]
      ]
  step_books (night now) s r unique m =
      let (r', m', same, e) =
        night_row now (db.payments.find (past_due now) s.payments) s r m
          (All-of_mem _ _ (listed_unpaid now s r unique m)) in
      (r', m', same, rw e refl)

  -- In any history of payments, refunds and nightly jobs over a table with unique ids every row
  -- stays, with its id and its tenant, and its books balance: the payments of it that succeed, plus
  -- one if it is paid at the start, are as many as the refunds of it that succeed, plus one if it is
  -- paid at the end. So payments and refunds of it alternate.
  pub run_all_books :
      (cs : List Command) (s : Store) (r : Payment)
      → UniqueBy payment_id s.payments
      → Memᴰ r s.payments
      → (r' : Payment) × Memᴰ r' (run_all db cs s).payments
        × SameRow r r'
        × (pays_in r.id cs s + paid_now r ≡ refunds_in r.id cs s + paid_now r')
  unfolding run_all pays_in refunds_in
  run_all_books [] s r unique m = (r, m, (refl, refl, refl), refl)
  run_all_books (c ∷ cs) s r unique m =
      let (q, k, (i, t, l), one) = step_books c s r unique m in
      let (r', m', (i', t', l'), more) =
        run_all_books cs (run db c s) q (run_unique db c s unique) k in
      (r', m', (i' ∙ i, t' ∙ t, l' ∙ l), omega (arith, one, rw i at more))

  -- A row that a query by id and tenant fits is found after a history, with its books.
  pub found_after :
      (id tenant_id : Uuid) (cs : List Command) (s : Store) (r : Payment)
      → UniqueBy payment_id s.payments
      → Memᴰ r s.payments
      → in_tenant id tenant_id r ≡ true
      → payment_live r ≡ true
      → (r' : Payment) × (db.payments.find_one (in_tenant id tenant_id) (run_all db cs s).payments
          ≡ some r')
        × (pays_in id cs s + paid_now r ≡ refunds_in id cs s + paid_now r')
  found_after id tenant_id cs s r unique m fits alive =
      let (r', m', (i, t, l), books) = run_all_books cs s r unique m in
      let own : r.id ≡ id = (==_iff _ _).0 (and_left _ _ fits) in
      let fits' : in_tenant id tenant_id r' ≡ true = rw (i, t) fits in
      let (q, found) =
        find_one_total db.payments (in_tenant id tenant_id) (run_all db cs s).payments r' m'
          (l ∙ alive) fits' in
      let same : q ≡ r' =
        the_row id tenant_id (run_all db cs s) r' q (run_all_unique db cs s unique) m' found
          (and_left _ _ fits') in
      (r', found ∙ ap some same, rw own at books)
