-- ===== src/Text/Decimal.antt =====
-- The decimal print can be read back, also with zeros in front of it.
use edu_crm_backend.Base.{
  ℕ, zero, suc, ◌+◌, ◌-◌, ◌/◌, ◌%◌, ◌<◌, ◌≡◌, refl, [], ◌∷◌, ◌++◌, length, ltb, arith, Bool-cases,
  inl, inr, ◌∙◌, ap,
}
use edu_crm_backend.Text.{Text, digits_from, decimal, replicate, pad_start, digits_value}

digits_value-digits_from :
    (fuel n : ℕ) (acc : Text)
    → n < fuel
    → digits_value 0 (digits_from fuel n acc) ≡ digits_value n acc
unfolding digits_from digits_value
digits_value-digits_from zero n acc h = elim h [ ]
digits_value-digits_from (suc fuel) n acc h = elim (Bool-cases (ltb n 10)) [
  | inl small ↦ rw small (ap (λ k. digits_value k acc) (ground arith))
  | inr large ↦ rw large (
      digits_value-digits_from fuel (n / 10) ((b'0' + n % 10) ∷ acc) (ground arith)
      ∙ ap (λ k. digits_value k acc) (omega arith))
]

pub digits_value-decimal : (n : ℕ) → digits_value 0 (decimal n) ≡ n
unfolding decimal digits_value
digits_value-decimal n = digits_value-digits_from (suc n) n [] (omega arith)

digits_value-zeros :
    (k : ℕ) (text : Text) → digits_value 0 (replicate k b'0' ++ text) ≡ digits_value 0 text
unfolding digits_value replicate
digits_value-zeros zero text = refl
digits_value-zeros (suc k) text = digits_value-zeros k text

-- Padding with zeros does not change the number, so a padded print is injective.
pub digits_value-pad_start : (width n : ℕ) → digits_value 0 (pad_start width b'0' (decimal n)) ≡ n
unfolding pad_start
digits_value-pad_start width n =
    digits_value-zeros (width - length (decimal n)) (decimal n) ∙ digits_value-decimal n

pub append-cancel : (xs : Text) {ys zs : Text} → xs ++ ys ≡ xs ++ zs → ys ≡ zs
append-cancel [] e = e
append-cancel (x ∷ xs) {ys} {zs} e = append-cancel xs (cc)
