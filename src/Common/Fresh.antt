-- ===== src/Common/Fresh.antt =====
-- `generateUniqueSlug` ends, with a slug that is not in use.
use mathlib.Core.Path.{ap₂}
use edu_crm_backend.Common.Slug.{
  generate_slug, includes_text, generate_unique_slug, numbered, text_eq, first_free,
}
use edu_crm_backend.Base.{
  ==_refl, and_both, and_right, and_left, ==_iff, ◌||◌, ap, refl, inr, zero, ◌∙◌, [], inl, ◌+◌, sym,
  false, suc, ◌↔◌, arith, Bool-cases, some, true, ◌≤◌, ◌∷◌, ◌<◌, not, length, select, ℕ, ◌≢◌, ◌≡◌,
  List,
}
use edu_crm_backend.Text.{digits_value, codes, Text}
use edu_crm_backend.Text.Decimal.{digits_value-decimal, append-cancel}

text_eq_iff : (s t : Text) → (text_eq s t ≡ true) ↔ (s ≡ t)
unfolding text_eq
text_eq_iff s t = (to s t, λ e. rw e (self t))
  where
    to : (s t : Text) → text_eq s t ≡ true → s ≡ t
    to [] [] h = refl
    to [] (d ∷ ds) h = cc
    to (c ∷ cs) [] h = cc
    to (c ∷ cs) (d ∷ ds) h =
        ap₂ (λ x xs. x ∷ xs) ((==_iff c d).0 (and_left _ _ h)) (to cs ds (and_right _ _ h))

    self : (t : Text) → text_eq t t ≡ true
    self [] = refl
    self (c ∷ cs) = and_both _ _ (==_refl c) (self cs)

numbered-injective : (base : Text) (m n : ℕ) → numbered base m ≡ numbered base n → m ≡ n
unfolding numbered
numbered-injective base m n e =
    let a = append-cancel base e in
    let b = append-cancel (codes "-") a in
    sym (digits_value-decimal m) ∙ (ap (digits_value 0) b ∙ digits_value-decimal n)

-- The list without a text.
abbrev without : Text → List Text → List Text
without t slugs = select (λ s. not (text_eq s t)) slugs

without_shorter : (t : Text) (slugs : List Text) → length (without t slugs) ≤ length slugs
without_shorter t [] = omega arith
without_shorter t (s ∷ more) = ground (arith, without_shorter t more)

without_found :
    (t : Text) (slugs : List Text)
    → includes_text slugs t ≡ true
    → length (without t slugs) < length slugs
unfolding includes_text
without_found t [] h = cc
without_found t (s ∷ more) h = ground (arith, without_shorter t more, without_found t more)

without_other :
    (t u : Text) (slugs : List Text)
    → t ≢ u
    → includes_text (without t slugs) u ≡ includes_text slugs u
unfolding includes_text
without_other t u [] h = refl
without_other t u (s ∷ more) h = elim (Bool-cases (text_eq s t)) [
  | inl hit ↦
      let same : s ≡ t = (text_eq_iff s t).0 hit in
      elim (Bool-cases (text_eq s u)) [
        | inl too ↦ absurd (h (sym same ∙ (text_eq_iff s u).0 too))
        | inr other ↦ rw (hit, other) (without_other t u more h)
      ]
  | inr miss ↦ rw miss (ap (λ b. text_eq s u || b) (without_other t u more h))
]

agree :
    (xs ys : List Text) (base : Text) (fuel counter : ℕ)
    → ((k : ℕ)
        → counter ≤ k
        → includes_text xs (numbered base k) ≡ includes_text ys (numbered base k))
    → first_free xs base fuel counter ≡ first_free ys base fuel counter
unfolding first_free
agree xs ys base zero counter h = refl
agree xs ys base (suc fuel) counter h =
    rw (h counter (omega arith), agree xs ys base fuel (counter + 1) (λ k le. h k (omega arith)))
      refl

-- With more fuel than there are texts the loop ends.
first_free_ends :
    (slugs : List Text) (base : Text) (fuel counter : ℕ)
    → length slugs < fuel
    → (t : Text) × (first_free slugs base fuel counter ≡ some t)
unfolding first_free
first_free_ends slugs base zero counter h = absurd (omega arith)
first_free_ends slugs base (suc fuel) counter h =
    elim (Bool-cases (includes_text slugs (numbered base counter))) [
      | inl taken ↦
          let less = without_found (numbered base counter) slugs taken in
          let (t, e) =
            first_free_ends (without (numbered base counter) slugs) base fuel (counter + 1)
              (omega (arith, less)) in
          let same =
            agree (without (numbered base counter) slugs) slugs base fuel (counter + 1) (λ k le.
              without_other (numbered base counter) (numbered base k) slugs
                (λ f. absurd (omega (arith, numbered-injective base counter k f)))) in
          (t, rw taken (sym same ∙ e))
      | inr free ↦ (numbered base counter, rw free refl)
    ]

first_free_new :
    (slugs : List Text) (base : Text) (fuel counter : ℕ) (t : Text)
    → first_free slugs base fuel counter ≡ some t
    → includes_text slugs t ≡ false
unfolding first_free
first_free_new slugs base zero counter t h = cc
first_free_new slugs base (suc fuel) counter t h =
    elim (Bool-cases (includes_text slugs (numbered base counter))) [
      | inl taken ↦ first_free_new slugs base fuel (counter + 1) t (rw taken at h)
      | inr free ↦ let e : numbered base counter ≡ t = cc (rw free at h) in rw (← e) free
    ]

-- The search for a slug always ends, within as many rounds as there are slugs and one, and the slug
-- that it gives is not among the ones in use.
pub generate_unique_slug_new :
    (lower : Text → Text) (text : Text) (slugs : List Text)
    → (t : Text) × (generate_unique_slug lower text slugs ≡ some t)
      × (includes_text slugs t ≡ false)
unfolding generate_unique_slug
generate_unique_slug_new lower text slugs =
    elim (Bool-cases (includes_text slugs (generate_slug lower text))) [
      | inl taken ↦
          let (t, e) =
            first_free_ends slugs (generate_slug lower text) (length slugs + 1) 2 (omega arith) in
          (t, rw taken e, first_free_new slugs (generate_slug lower text) (length slugs + 1) 2 t e)
      | inr free ↦ (generate_slug lower text, rw free refl, free)
    ]
