-- ===== src/Payments/Limits.antt =====
-- What `apply_discount` keeps: the usage limit of a discount code, and the tables where it throws.
use edu_crm_backend.Base.{
  refl, and_left, true, ◌+◌, Memᴰ, ◌∙◌, sym, inr, inl, All, Option-cases, ◌<◌, arith, ◌≤◌, some,
  Option, ℕ, ◌≡◌,
}
use edu_crm_backend.Payments.Store.{has_id, in_tenant, Store, Db, find_one}
use edu_crm_backend.Payments.Entities.{Payment, Discount}
use edu_crm_backend.Payments.Discount.{
  bump_used, set_discount, has_discount_id, discount_of, code_in_tenant, AppliedDiscount,
  ApplyDiscountDto, apply_discount, check_discount,
}
use edu_crm_backend.Database.{Instant, Uuid}
use edu_crm_backend.Base.Action.{Result-cases, err, Error, ok}
use edu_crm_backend.Database.Rows.{
  mem-update_rows_hit, All-update_rows_unique, update_rows, UniqueBy,
}
use edu_crm_backend.Base.Int.{◌+ℤ◌, ℤ, ◌≤ℤ◌, pos, ◌-ℤ◌, max_zero}

abbrev pub WithinLimit : Discount → Type 0
WithinLimit d = (m : ℕ) → d.max_uses ≡ some m → d.used_count ≤ m

abbrev pub discount_id : Discount → Uuid
discount_id d = d.id

check_discount_keeps :
    (d : Discount) (c : Option Uuid) (now : Instant) (s : Store) → (check_discount d c now s).1 ≡ s
unfolding check_discount
check_discount_keeps d c now s = ground arith

check_discount_limit :
    (d : Discount) (c : Option Uuid) (now : Instant) (s : Store) (m : ℕ)
    → (check_discount d c now s).0 ≡ ok tt
    → d.max_uses ≡ some m
    → d.used_count < m
unfolding check_discount
check_discount_limit d c now s m e k = ground arith

-- total + discount = amount + tax
abbrev pub AmountsAgree : Payment → Type 0
AmountsAgree p = p.total_amount +ℤ pos p.discount_amount ≡ pos (p.amount + p.tax_amount)

disagree :
    (p : Payment) (d : ℕ) (now : Instant)
    → AmountsAgree p
    → 0 < p.discount_amount
    → pos d ≤ℤ p.total_amount
    → ¬ AmountsAgree (set_discount d (max_zero (p.total_amount -ℤ pos d)) now p)
unfolding ◌-ℤ◌ ◌+ℤ◌
disagree p d now agree had le agrees = ground arith

max_zero_nonneg : (a : ℤ) → pos 0 ≤ℤ max_zero a
max_zero_nonneg a = ground arith

max_zero-sub : (a : ℤ) (d : ℕ) → pos 0 ≤ℤ a → max_zero (a -ℤ pos d) ≤ℤ a
unfolding ◌-ℤ◌
max_zero-sub a d h = ground arith

module _ (db : Db) where
  apply_discount_ok :
      (dto : ApplyDiscountDto) (tenant_id : Uuid) (now : Instant) (s : Store) (r : AppliedDiscount)
      → (apply_discount db dto tenant_id now s).0 ≡ ok r
      → (d : Discount) × (p : Payment) × (db.discounts.find_one
            (code_in_tenant dto.code tenant_id)
            s.discounts
          ≡ some d)
        × (db.payments.find_one (in_tenant dto.payment_id tenant_id) s.payments ≡ some p)
        × ((check_discount d dto.course_id now s).0 ≡ ok tt)
  unfolding apply_discount find_one
  apply_discount_ok dto tenant_id now s r e =
      elim (Option-cases (db.discounts.find_one (code_in_tenant dto.code tenant_id) s.discounts)) [
        | inl missed ↦ absurd (ground arith)
        | inr (d, fd) ↦
            elim (Option-cases
              (db.payments.find_one (in_tenant dto.payment_id tenant_id) s.payments)) [
                | inl missed ↦ absurd (ground (arith, check_discount_keeps d dto.course_id now s))
                | inr (p, fp) ↦ (d, p, fd, fp, ground arith)
              ]
      ]

  -- The call's effect, from what it finds.
  apply_discount_done :
      (dto : ApplyDiscountDto) (tenant_id : Uuid) (now : Instant) (s : Store) (d : Discount)
      (p : Payment)
      → db.discounts.find_one (code_in_tenant dto.code tenant_id) s.discounts ≡ some d
      → db.payments.find_one (in_tenant dto.payment_id tenant_id) s.payments ≡ some p
      → (check_discount d dto.course_id now s).0 ≡ ok tt
      → let total = max_zero (p.total_amount -ℤ pos (discount_of d p)) in
        let (r, s') = apply_discount db dto tenant_id now s in
        (r
          ≡ ok (record {
            discount_id = d.id;
            discount_amount = discount_of d p;
            new_total = total;
            code = d.code;
          }))
        × (s'.payments
            ≡ update_rows
                (has_id dto.payment_id)
                (set_discount (discount_of d p) total now)
                s.payments)
        × (s'.discounts ≡ update_rows (has_discount_id d.id) bump_used s.discounts)
  unfolding apply_discount find_one
  apply_discount_done dto tenant_id now s d p fd fp c = (
    ground (arith, check_discount_keeps d dto.course_id now s),
    ground (
      arith,
      check_discount_keeps d dto.course_id now s,
      db.payments.update_lem (has_id dto.payment_id)
          (set_discount (discount_of d p) (max_zero (p.total_amount -ℤ pos (discount_of d p))) now)
          s.payments,
    ),
    ground (
      arith,
      check_discount_keeps d dto.course_id now s,
      db.discounts.update_lem (has_discount_id d.id) bump_used s.discounts,
    ),
  )

  -- A call that throws changes nothing.
  pub apply_discount_atomic :
      (dto : ApplyDiscountDto) (tenant_id : Uuid) (now : Instant) (s : Store) (e : Error)
      → (apply_discount db dto tenant_id now s).0 ≡ err e
      → (apply_discount db dto tenant_id now s).1 ≡ s
  unfolding apply_discount find_one
  apply_discount_atomic dto tenant_id now s e h =
      elim (Option-cases (db.discounts.find_one (code_in_tenant dto.code tenant_id) s.discounts)) [
        | inl missed ↦ ground arith
        | inr (d, fd) ↦ ground (arith, check_discount_keeps d dto.course_id now s)
      ]

  -- With unique ids, a call of `apply_discount`, whatever it answers, keeps the use of every code
  -- within its limit.
  pub apply_discount-WithinLimit :
      (dto : ApplyDiscountDto) (tenant_id : Uuid) (now : Instant) (s : Store)
      → UniqueBy discount_id s.discounts
      → All WithinLimit s.discounts
      → All WithinLimit (apply_discount db dto tenant_id now s).1.discounts
  apply_discount-WithinLimit dto tenant_id now s unique h =
      elim (Result-cases (apply_discount db dto tenant_id now s).0) [
        | inl (e, failed) ↦ rw (apply_discount_atomic dto tenant_id now s e failed) h
        | inr (r, done) ↦
            let (d, p, fd, fp, c) = apply_discount_ok dto tenant_id now s r done in
            let m = db.discounts.find_one_listed _ _ d fd in
            rw (apply_discount_done dto tenant_id now s d p fd fp c).2 (
              All-update_rows_unique WithinLimit discount_id bump_used s.discounts d unique m h
                (λ n k. omega (arith, check_discount_limit d dto.course_id now s n c k)))
      ]

  -- The new total is never negative, and a total that was not negative does not grow.
  pub apply_discount_total :
      (dto : ApplyDiscountDto) (tenant_id : Uuid) (now : Instant) (s : Store) (r : AppliedDiscount)
      → (apply_discount db dto tenant_id now s).0 ≡ ok r
      → (p : Payment) × (db.payments.find_one (in_tenant dto.payment_id tenant_id) s.payments
          ≡ some p)
        × (pos 0 ≤ℤ r.new_total)
        × (pos 0 ≤ℤ p.total_amount → r.new_total ≤ℤ p.total_amount)
  apply_discount_total dto tenant_id now s r done =
      let (d, p, fd, fp, c) = apply_discount_ok dto tenant_id now s r done in
      let e : ok r
          ≡ ok (record {
            discount_id = d.id;
            discount_amount = discount_of d p;
            new_total = max_zero (p.total_amount -ℤ pos (discount_of d p));
            code = d.code;
          }) =
        sym done ∙ (apply_discount_done dto tenant_id now s d p fd fp c).0 in
      let t : r.new_total ≡ max_zero (p.total_amount -ℤ pos (discount_of d p)) = cc e in
      (p, fp, rw t (max_zero_nonneg _), λ h. rw t (max_zero-sub p.total_amount (discount_of d p) h))

  -- The code's discount replaces the one that the payment had, and the total is only lowered: on
  -- a payment that had a discount and whose amounts agreed, they agree no longer, where the new
  -- discount is at most the total.
  pub apply_discount_disagrees :
      (dto : ApplyDiscountDto) (tenant_id : Uuid) (now : Instant) (s : Store) (r : AppliedDiscount)
      (p : Payment)
      → (apply_discount db dto tenant_id now s).0 ≡ ok r
      → db.payments.find_one (in_tenant dto.payment_id tenant_id) s.payments ≡ some p
      → AmountsAgree p
      → 0 < p.discount_amount
      → pos r.discount_amount ≤ℤ p.total_amount
      → (q : Payment) × Memᴰ q (apply_discount db dto tenant_id now s).1.payments
        × (q.id ≡ p.id)
        × ¬ AmountsAgree q
  apply_discount_disagrees dto tenant_id now s r p done fp agree had le =
      let (d, p', fd, fp', c) = apply_discount_ok dto tenant_id now s r done in
      let same : p' ≡ p = cc (fp, fp') in
      let (shape, rows, _) = apply_discount_done dto tenant_id now s d p fd fp c in
      let total : ℤ = max_zero (p.total_amount -ℤ pos (discount_of d p)) in
      let amount : r.discount_amount ≡ discount_of d p = cc (done, shape) in
      let fits : in_tenant dto.payment_id tenant_id p ≡ true = db.payments.find_one_fits _ _ p fp in
      (
        set_discount (discount_of d p) total now p,
        rw rows (
            mem-update_rows_hit (has_id dto.payment_id) (set_discount (discount_of d p) total now)
              s.payments (db.payments.find_one_listed _ _ p fp) (and_left _ _ fits)),
        refl,
        λ agrees. disagree p (discount_of d p) now agree had (rw amount at le) agrees,
      )
