-- ===== src/Payments/Discount.antt =====
-- `applyDiscount` of modules/payments/payments.service.ts.
use edu_crm_backend.Base.{
  ℕ, ◌+◌, ◌*◌, ◌/◌, String, Bool, true, false, not, ◌&&◌, Option, none, some, List, ltb, leb, ◌==◌,
  str_eq, includes,
}
use edu_crm_backend.Base.Int.{ℤ, pos, ◌-ℤ◌, max_zero}
use edu_crm_backend.Base.Action.{
  Action, pure, gets, or_throw, ◌>>=◌, ◌>>◌, throw_if, modify, bad_request,
}
use edu_crm_backend.Database.{Uuid, Instant}
use edu_crm_backend.Payments.Entities.{Payment, Discount, DiscountType}
use edu_crm_backend.Payments.Store.{Store, Db, has_id, find_one}

pub record ApplyDiscountDto : Type 0 where
  pub code : String
  pub payment_id : Uuid
  pub course_id : Option Uuid

pub record AppliedDiscount : Type 0 where
  pub discount_id : Uuid
  pub discount_amount : ℕ
  pub new_total : ℤ
  pub code : String

abbrev pub set_discount : ℕ → ℤ → Instant → Payment → Payment
set_discount amount total now p = record p {
  discount_amount = amount;
  total_amount = total;
  updated_at = now;
}

-- Whether a list of courses, null for all, lets a code be used for the course of the request.
pub applicable : Option (List Uuid) → Option Uuid → Bool
applicable none c = true
applicable (some ids) none = true
applicable (some ids) (some c) = includes ids c

abbrev pub bump_used : Discount → Discount
bump_used d = record d { used_count = d.used_count + 1 }

-- `where: { code, tenantId, isActive: true }`
abbrev pub code_in_tenant : String → Uuid → Discount → Bool
code_in_tenant code tenant_id d = str_eq d.code code && (d.tenant_id == tenant_id && d.is_active)

abbrev pub has_discount_id : Uuid → Discount → Bool
has_discount_id id d = d.id == id

-- The tests of `applyDiscount` on the discount, in its order.
unfoldable pub check_discount : Discount → Option Uuid → Instant → Action Store (Unit {0})
check_discount d course_id now = do
  throw_if (elim d.valid_until [ none ↦ false | some t ↦ ltb t now ])
      (bad_request "Discount code has expired")
  throw_if (elim d.max_uses [ none ↦ false | some m ↦ leb m d.used_count ])
      (bad_request "Discount code usage limit reached")
  throw_if (not (applicable d.applicable_course_ids course_id))
      (bad_request "Discount code is not applicable to this course")

-- A percentage of the payment's amount, or the discount's value.
pub discount_of : Discount → Payment → ℕ
discount_of d p = elim d.type [
  | DiscountType.percentage ↦ p.amount * d.value / 10000
  | DiscountType.fixed ↦ d.value
]

module _ (db : Db) where
  unfoldable pub apply_discount : ApplyDiscountDto → Uuid → Instant → Action Store AppliedDiscount
  apply_discount dto tenant_id now = do
    found ← gets (λ s. db.discounts.find_one (code_in_tenant dto.code tenant_id) s.discounts)
    discount ← or_throw found (bad_request "Invalid or expired discount code")
    check_discount discount dto.course_id now
    payment ← find_one db dto.payment_id tenant_id
    let amount = discount_of discount payment
    let new_total = max_zero (payment.total_amount -ℤ pos amount)
    modify (λ s. record s {
      payments =
          db.payments.update (has_id dto.payment_id) (set_discount amount new_total now) s.payments;
    })
    modify (λ s. record s {
      discounts = db.discounts.update (has_discount_id discount.id) bump_used s.discounts;
    })
    pure (record {
      discount_id = discount.id;
      discount_amount = amount;
      new_total = new_total;
      code = discount.code;
    })
