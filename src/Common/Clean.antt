-- ===== src/Common/Clean.antt =====
-- The characters of a slug.
use edu_crm_backend.Common.Slug.{
  is_dash, is_space, collapse, trim_end, trim_start, is_word, generate_slug,
}
use edu_crm_backend.Text.{Text}
use edu_crm_backend.Base.{
  inr, inl, Bool-cases, ◌⊎◌, refl, select, false, true, ◌∷◌, [], Bool, ◌≡◌, ◌||◌, All, ℕ,
}

abbrev pub Clean : ℕ → Type 0
Clean c = (is_word c || is_dash c) ≡ true

collapse-All :
    (P Q : ℕ → Type 0) (p : ℕ → Bool) (inside : Bool) (t : Text)
    → ((c : ℕ) → P c → p c ≡ false → Q c)
    → Q b'-'
    → All P t
    → All Q (collapse p inside t)
unfolding collapse
collapse-All P Q p inside [] k dash h = tt
collapse-All P Q p inside (c ∷ cs) k dash (h, hs) =
    let rest = collapse-All P Q p (p c) cs k dash hs in
    elim (Bool-cases (p c)) [
      | inl hit ↦ elim (Bool-cases inside) [
        | inl on ↦ rw (hit, on) (rw hit at rest)
        | inr off ↦ rw (hit, off) (dash, rw hit at rest)
      ]
      | inr miss ↦ rw miss (k c h miss, rw miss at rest)
    ]

select-All : (p : ℕ → Bool) (t : Text) → All (λ c. p c ≡ true) (select p t)
select-All p [] = tt
select-All p (c ∷ cs) = elim (Bool-cases (p c)) [
  | inl hit ↦ rw hit (hit, select-All p cs)
  | inr miss ↦ rw miss (select-All p cs)
]

trim_start-All : (P : ℕ → Type 0) (t : Text) → All P t → All P (trim_start t)
unfolding trim_start
trim_start-All P [] h = tt
trim_start-All P (c ∷ cs) (h, hs) = elim (Bool-cases (is_space c)) [
  | inl hit ↦ rw hit (trim_start-All P cs hs)
  | inr miss ↦ rw miss (h, hs)
]

List-cases : (t : Text) → (t ≡ []) ⊎ ((c : ℕ) × (cs : Text) × (t ≡ c ∷ cs))
List-cases [] = inl refl
List-cases (c ∷ cs) = inr (c, cs, refl)

trim_end-All : (P : ℕ → Type 0) (t : Text) → All P t → All P (trim_end t)
unfolding trim_end
trim_end-All P [] h = tt
trim_end-All P (c ∷ cs) (h, hs) =
    let rest = trim_end-All P cs hs in
    elim (List-cases (trim_end cs)) [
      | inl empty ↦ elim (Bool-cases (is_space c)) [
        | inl hit ↦ rw (empty, hit) tt
        | inr miss ↦ rw (empty, miss) (h, tt)
      ]
      | inr (d, ds, e) ↦ rw e (h, rw e at rest)
    ]

kept-Clean :
    (c : ℕ) → (is_word c || (is_space c || is_dash c)) ≡ true → is_space c ≡ false → Clean c
kept-Clean c h miss = rw miss at h

-- A slug consists of letters without accents, digits, underscores and dashes, whatever
-- `toLowerCase` does.
pub generate_slug-Clean : (lower : Text → Text) (text : Text) → All Clean (generate_slug lower text)
unfolding generate_slug is_word
generate_slug-Clean lower text = trim_end-All Clean _ (
    trim_start-All Clean _ (
      collapse-All Clean Clean is_dash false _ (λ c h miss. h) refl
        (collapse-All _ Clean is_space false _ kept-Clean refl
          (select-All (λ c. is_word c || (is_space c || is_dash c)) (lower text)))))
