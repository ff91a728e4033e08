-- ===== src/Common/Slug.antt =====
-- common/utils/slug.util.ts, on texts as lists of character codes. `toLowerCase` is a parameter.
use edu_crm_backend.Base.{
  zero, includes, some, not, false, true, suc, ◌&&◌, ◌+◌, length, ◌==◌, none, leb, any, [],
  if◌then◌else◌, ◌||◌, Option, select, ◌∷◌, ◌++◌, Bool, ℕ, List,
}
use edu_crm_backend.Text.{decimal, codes, Text}

-- The class `\w` of JavaScript's regular expressions.
unfoldable pub is_word : ℕ → Bool
is_word c =
    (leb b'a' c && leb c b'z')
    || ((leb b'A' c && leb c b'Z') || ((leb b'0' c && leb c b'9') || c == b'_'))

-- The class `\s`, which `trim` removes too.
pub is_space : ℕ → Bool
is_space c =
    (leb 9 c && leb c 13)
    || (includes (32 ∷ 160 ∷ 5760 ∷ 8232 ∷ 8233 ∷ 8239 ∷ 8287 ∷ 12288 ∷ 65279 ∷ []) c
        || (leb 8192 c && leb c 8202))

abbrev pub is_dash : ℕ → Bool
is_dash c = c == b'-'

-- `replace(/p+/g, '-')`: each run of characters that fit becomes one dash.
unfoldable pub collapse : (ℕ → Bool) → Bool → Text → Text
collapse p inside [] = []
collapse p inside (c ∷ cs) =
    let rest = collapse p (p c) cs in
    if p c then (if inside then rest else b'-' ∷ rest) else c ∷ rest

unfoldable pub trim_start : Text → Text
trim_start [] = []
trim_start (c ∷ cs) = let rest = trim_start cs in if is_space c then rest else c ∷ cs

unfoldable pub trim_end : Text → Text
trim_end [] = []
trim_end (c ∷ cs) =
    let rest = trim_end cs in
    elim rest [ [] ↦ if is_space c then [] else c ∷ [] | x ∷ xs ↦ c ∷ x ∷ xs ]

unfoldable pub generate_slug : (Text → Text) → Text → Text
unfolding is_word is_space collapse trim_start trim_end
generate_slug lower text =
    let kept = select (λ c. is_word c || (is_space c || is_dash c)) (lower text) in
    trim_end (trim_start (collapse is_dash false (collapse is_space false kept)))

unfoldable pub text_eq : Text → Text → Bool
text_eq [] [] = true
text_eq (c ∷ cs) (d ∷ ds) = c == d && text_eq cs ds
text_eq _ _ = false

unfoldable pub includes_text : List Text → Text → Bool
unfolding text_eq
includes_text slugs t = any (λ s. text_eq s t) slugs

-- `${base}-${counter}`
unfoldable pub numbered : Text → ℕ → Text
numbered base counter = base ++ (codes "-" ++ decimal counter)

-- The `while` loop, with fuel.
unfoldable pub first_free : List Text → Text → ℕ → ℕ → Option Text
unfolding includes_text numbered
first_free slugs base zero counter = none
first_free slugs base (suc fuel) counter =
    let later = first_free slugs base fuel (counter + 1) in
    if includes_text slugs (numbered base counter) then later else some (numbered base counter)

unfoldable pub generate_unique_slug : (Text → Text) → Text → List Text → Option Text
unfolding generate_slug first_free includes_text
generate_unique_slug lower text slugs =
    let base = generate_slug lower text in
    let free = first_free slugs base (length slugs + 1) 2 in
    if not (includes_text slugs base) then some base else free
