-- ===== src/Owned/Occurrences.antt =====
-- How often a number stands in a list, and a list without one occurrence.
use devxdao_m.Common.{
  ℕ, suc, ◌+◌, ◌<◌, ◌≡◌, refl, ap, false, some, List, [], ◌∷◌, map, any, push, position, remove,
  arith, inl, inr, ◌==◌, Bool-cases, if◌then◌else◌,
}
use devxdao_m.Common.Count.{bit}
use devxdao_m.Runtime.{ApiError, ok}
use devxdao_m.Contract.Utils.Tokens.{
  TokenIdentifier, token_identifier_eq, get_index, collect_or_revert,
}

unfoldable pub occurrences : ℕ → List ℕ → ℕ
occurrences i [] = 0
occurrences i (x ∷ l) = bit (x == i) + occurrences i l

unfoldable pub without : ℕ → List ℕ → List ℕ
without i [] = []
without i (x ∷ l) = let rest = without i l in if x == i then l else x ∷ rest

pub occurrences-push :
    (i j : ℕ) (l : List ℕ) → occurrences i (push l j) ≡ occurrences i l + bit (j == i)
unfolding occurrences
occurrences-push i j [] = omega arith
occurrences-push i j (x ∷ l) = ground (arith, occurrences-push i j l)

pub occurrences-without :
    (i j : ℕ) (l : List ℕ)
    → 0 < occurrences j l
    → occurrences i (without j l) + bit (j == i) ≡ occurrences i l
unfolding occurrences without
occurrences-without i j [] lt = elim lt [ ]
occurrences-without i j (x ∷ l) lt = elim (Bool-cases (x == j)) [
  | inl here ↦ ground arith
  | inr there ↦ ground (arith, occurrences-without i j l (ground arith))
]

-- The tests that the contract makes on a list of indices.
abbrev pub as_tokens : List ℕ → List TokenIdentifier
as_tokens l = map TokenIdentifier.index l

pub any-as_tokens :
    (i : ℕ) (l : List ℕ)
    → occurrences i l ≡ 0
    → any (λ t. token_identifier_eq t (TokenIdentifier.index i)) (as_tokens l) ≡ false
unfolding occurrences
any-as_tokens i [] none_there = refl
any-as_tokens i (x ∷ l) none_there = ground (arith, any-as_tokens i l (ground arith))

pub position-as_tokens :
    (i : ℕ) (l : List ℕ)
    → 0 < occurrences i l
    → (n : ℕ) × (position (λ t. token_identifier_eq t (TokenIdentifier.index i)) (as_tokens l)
        ≡ some n)
      × (remove n (as_tokens l) ≡ as_tokens (without i l))
unfolding occurrences without
position-as_tokens i [] lt = elim lt [ ]
position-as_tokens i (x ∷ l) lt = elim (Bool-cases (x == i)) [
  | inl here ↦ (0, rw here, rw here)
  | inr there ↦
      let (n, p, r) = position-as_tokens i l (ground arith) in (suc n, rw (there, p), rw (there, r))
]

pub as_tokens-push :
    (l : List ℕ) (i : ℕ) → push (as_tokens l) (TokenIdentifier.index i) ≡ as_tokens (push l i)
as_tokens-push [] i = refl
as_tokens-push (x ∷ l) i = ap (λ r. TokenIdentifier.index x ∷ r) (as_tokens-push l i)

pub collect-as_tokens :
    (error : ApiError) (l : List ℕ) → collect_or_revert get_index error (as_tokens l) ≡ ok l
unfolding collect_or_revert
collect-as_tokens error [] = refl
collect-as_tokens error (x ∷ l) = rw (collect-as_tokens error l)
