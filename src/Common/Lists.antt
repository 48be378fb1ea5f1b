-- ===== src/Common/Lists.antt =====
-- The methods of Rust's `Vec` that the contract calls.
use Prim.Native.Nat.{ℕ, zero, suc}
use mathlib.Core.Bool.{Bool, true, false, ◌||◌}
use mathlib.Core.Option.{Option, none, some}
use mathlib.Core.Option
use mathlib.Core.List.{List, [], ◌∷◌, ◌++◌}
use mathlib.Core.Path.{◌≡◌, refl}
use mathlib.Core.Logic.{inl, inr}
use native.Mathlib.Omega.{arith}
use devxdao_m.Common.Tests.{if◌then◌else◌, Bool-cases}

module _ {ℓ} {A : Type ℓ} where
  abbrev pub length : List A → ℕ
  length [] = 0
  length (x ∷ xs) = suc (length xs)

  abbrev pub is_empty : List A → Bool
  is_empty [] = true
  is_empty (x ∷ xs) = false

  -- `push`
  abbrev pub push : List A → A → List A
  push xs x = xs ++ x ∷ []

  -- `iter().any(p)`
  abbrev pub any : (A → Bool) → List A → Bool
  any p [] = false
  any p (x ∷ xs) = p x || any p xs

  -- `contains(a)`, by the equality of the item type
  abbrev pub contains : (A → A → Bool) → List A → A → Bool
  contains eq xs a = any (λ x. eq x a) xs

  -- `iter().position(p)`
  abbrev pub position : (A → Bool) → List A → Option ℕ
  position p [] = none
  position p (x ∷ xs) = if p x then some 0 else Option.map suc (position p xs)

  -- `remove(index)`: every caller has the index from `position`, so it is in range
  abbrev pub remove : ℕ → List A → List A
  remove i [] = []
  remove zero (x ∷ xs) = xs
  remove (suc i) (x ∷ xs) = x ∷ remove i xs

  abbrev pub get_elem? : List A → ℕ → Option A
  get_elem? [] i = none
  get_elem? (x ∷ xs) zero = some x
  get_elem? (x ∷ xs) (suc i) = get_elem? xs i

  -- What a test finds stands somewhere in the list.
  pub any-get_elem? :
      (p : A → Bool) (xs : List A)
      → any p xs ≡ true
      → (i : ℕ) × (x : A) × (get_elem? xs i ≡ some x) × (p x ≡ true)
  any-get_elem? p [] h = cc
  any-get_elem? p (x ∷ xs) h = elim (Bool-cases (p x)) [
    | inl passes ↦ (0, x, refl, passes)
    | inr fails ↦
        let (i, y, there, passes) = any-get_elem? p xs (ground arith) in (suc i, y, there, passes)
  ]
