-- ===== src/Common/Decimal.antt =====
-- `u64::to_string`: the decimal digits of a number, most significant first.
use Prim.Native.Nat.{ℕ, zero, suc, ◌+◌, ◌-◌, ◌*◌, ◌/◌, ◌%◌, ◌<◌}
use mathlib.Core.Path.{◌≡◌, refl, sym, ap, ◌∙◌}
use mathlib.Core.Logic.{◌≢◌, inl, inr}
use mathlib.Core.Bool.{false}
use mathlib.Core.List.{[], ◌∷◌, ◌++◌}
use native.Mathlib.Omega.{arith}
use devxdao_m.Common.Tests.{ltb, if◌then◌else◌, Bool-cases}
use devxdao_m.Common.Text.{Text, text_eq, ne→text_eq}

-- The fuel is a bound on the number of digits.
digits : ℕ → ℕ → Text
digits zero n = []
digits (suc f) n =
    let rest = digits f (n / 10) ++ (48 + n % 10) ∷ [] in if ltb n 10 then (48 + n) ∷ [] else rest

unfoldable pub to_string : ℕ → Text
unfolding digits
to_string n = digits (suc n) n

-- The value of a string of digits read after `acc`.
parse_from : ℕ → Text → ℕ
parse_from acc [] = acc
parse_from acc (d ∷ ds) = parse_from (acc * 10 + (d - 48)) ds

parse_from-append :
    (acc d : ℕ) (ds : Text) → parse_from acc (ds ++ d ∷ []) ≡ parse_from acc ds * 10 + (d - 48)
unfolding parse_from
parse_from-append acc d [] = refl
parse_from-append acc d (x ∷ xs) = parse_from-append (acc * 10 + (x - 48)) d xs

parse_from-digits : (f n : ℕ) → n < f → parse_from 0 (digits f n) ≡ n
unfolding digits parse_from
parse_from-digits zero n h = elim h [ ]
parse_from-digits (suc f) n h = elim (Bool-cases (ltb n 10)) [
  | inl small ↦ rw small (omega arith)
  | inr large ↦
      ground
        (arith, parse_from-append 0 (48 + n % 10) (digits f (n / 10)), parse_from-digits f (n / 10))
]

pub to_string-injective : (m n : ℕ) → to_string m ≡ to_string n → m ≡ n
unfolding to_string
to_string-injective m n e =
    sym (parse_from-digits (suc m) m (omega arith))
    ∙ ap (parse_from 0) e
    ∙ parse_from-digits (suc n) n (omega arith)

pub text_eq-to_string_ne : (m n : ℕ) → m ≢ n → text_eq (to_string m) (to_string n) ≡ false
text_eq-to_string_ne m n h = ne→text_eq _ _ (λ e. h (to_string-injective m n e))
