-- ===== src/Text.antt =====
-- Texts that the program builds or takes apart: lists of character codes. The decimal print of a
-- number, as in `String(count)`, and JavaScript's `padStart`.
pub mod Decimal
use Prim.Native.Char.{code}
use Prim.Native.String
use edu_crm_backend.Base.{
  ℕ, zero, suc, ◌+◌, ◌-◌, ◌*◌, ◌/◌, ◌%◌, String, List, [], ◌∷◌, ◌++◌, length, ltb, if◌then◌else◌,
}

abbrev pub Text : Type 0
Text = List ℕ

-- The character codes of a literal.
abbrev pub codes : String → Text
codes String.[] = []
codes (String.◌∷◌ c s) = code c ∷ codes s

-- The digits of `n` before those of `acc`, with fuel.
pub digits_from : ℕ → ℕ → Text → Text
digits_from zero n acc = acc
digits_from (suc fuel) n acc =
    let more = digits_from fuel (n / 10) ((b'0' + n % 10) ∷ acc) in
    if ltb n 10 then (b'0' + n % 10) ∷ acc else more

-- `String(n)`
pub decimal : ℕ → Text
unfolding digits_from
decimal n = digits_from (suc n) n []

pub replicate : ℕ → ℕ → Text
replicate zero c = []
replicate (suc k) c = c ∷ replicate k c

-- `text.padStart(width, c)`
pub pad_start : ℕ → ℕ → Text → Text
unfolding replicate
pad_start width c text = replicate (width - length text) c ++ text

-- The number that a text of digits stands for.
pub digits_value : ℕ → Text → ℕ
digits_value acc [] = acc
digits_value acc (c ∷ cs) = digits_value (acc * 10 + (c - b'0')) cs
