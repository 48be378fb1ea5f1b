-- ===== src/Owned/Moves.antt =====
-- One number joins or leaves the list of one item key.
use native.Mathlib.Decide.{ℕ_discrete}
use devxdao_m.Common.{
  ℕ, ◌<◌, ◌≡◌, ◌≢◌, sym, ap, ◌∙◌, Bool, true, false, List, push, arith, inl, inr, Bool-cases,
  ==_refl,
}
use devxdao_m.Common.Text.{Text, text_eq, text_eq→eq}
use devxdao_m.Common.Count.{bit}
use devxdao_m.Runtime.{
  Dict, dictionary_put, dictionary_put_self, dictionary_put_ne, stored_dict, ok,
}
use devxdao_m.Contract.Modes.{NftIdentifierMode}
use devxdao_m.Contract.State.{OwnedTokens}
use devxdao_m.Contract.Utils.Tokens.{TokenIdentifier}
use devxdao_m.Contract.Mint.{add_owned_token}
use devxdao_m.Contract.Transfer.{remove_owned_token, receive_owned_token}
use devxdao_m.Owned.Occurrences.{occurrences, without, occurrences-push, occurrences-without}
use devxdao_m.Owned.Defs.{Lists}
use devxdao_m.Owned.Updates.{
  add_owned_token-ordinal, receive_owned_token-ordinal, remove_owned_token-ordinal,
}

-- Every entry agrees with the test of its item key.
abbrev pub AllLists : Dict OwnedTokens → (Text → ℕ → Bool) → Type 0
AllLists d p = (k : Text) → Lists (d k) (p k)

-- Tests that agree but at one number under one item key.
abbrev pub DiffersAt : Text → ℕ → (Text → ℕ → Bool) → (Text → ℕ → Bool) → Type 0
DiffersAt item n p q =
    ((k : Text) (i : ℕ) → i ≢ n → q k i ≡ p k i)
    × ((k : Text) → text_eq item k ≡ false → q k n ≡ p k n)

unchanged :
    (item k : Text) (n : ℕ) (p q : Text → ℕ → Bool)
    → DiffersAt item n p q
    → text_eq item k ≡ false
    → (i : ℕ) → q k i ≡ p k i
unchanged item k n p q (off, other) elsewhere i = elim (ℕ_discrete i n) [
  | yes same ↦ rw same (other k elsewhere)
  | no ne ↦ off k i ne
]

pushed :
    (n : ℕ) (l : List ℕ) (p q : ℕ → Bool)
    → ((i : ℕ) → occurrences i l ≡ bit (p i))
    → p n ≡ false
    → q n ≡ true
    → ((i : ℕ) → i ≢ n → q i ≡ p i)
    → (i : ℕ) → occurrences i (push l n) ≡ bit (q i)
pushed n l p q agree before after off i = elim (ℕ_discrete i n) [
  | yes same ↦ rw same (ground (arith, occurrences-push n n l, agree n, ==_refl n))
  | no ne ↦ ground (arith, occurrences-push i n l, agree i, off i ne)
]

taken :
    (n : ℕ) (l : List ℕ) (p q : ℕ → Bool)
    → ((i : ℕ) → occurrences i l ≡ bit (p i))
    → p n ≡ true
    → q n ≡ false
    → ((i : ℕ) → i ≢ n → q i ≡ p i)
    → (i : ℕ) → occurrences i (without n l) ≡ bit (q i)
taken n l p q agree before after off i =
    let there : 0 < occurrences n l = ground (arith, agree n) in
    elim (ℕ_discrete i n) [
      | yes same ↦ rw same (ground (arith, occurrences-without n n l there, agree n, ==_refl n))
      | no ne ↦ ground (arith, occurrences-without i n l there, agree i, off i ne)
    ]

-- An entry written, seen at any item key.
written :
    (d : Dict OwnedTokens) (item : Text) (n : ℕ) (v : List ℕ) (p q : Text → ℕ → Bool)
    → AllLists d p
    → DiffersAt item n p q
    → ((i : ℕ) → occurrences i v ≡ bit (q item i))
    → AllLists (dictionary_put d item (OwnedTokens.indices v)) q
written d item n v p q agree differ now k = elim (Bool-cases (text_eq item k)) [
  | inl here ↦
      let same = text_eq→eq item k here in
      rw (← same) (v, rw (dictionary_put_self d item (OwnedTokens.indices v)), now)
  | inr elsewhere ↦
      let (l, e, old) = agree k in
      (
        l,
        rw (dictionary_put_ne d item k (OwnedTokens.indices v) elsewhere) e,
        λ i. old i ∙ ap bit (sym (unchanged item k n p q differ elsewhere i)),
      )
]

module _ (d : Dict OwnedTokens) (item : Text) (n : ℕ) (p q : Text → ℕ → Bool) where
  pub joins :
      AllLists d p
      → DiffersAt item n p q
      → p item n ≡ false
      → q item n ≡ true
      → (v : List ℕ) × (add_owned_token NftIdentifierMode.ordinal
            (stored_dict d)
            item
            (TokenIdentifier.index n)
          ≡ ok (stored_dict (dictionary_put d item (OwnedTokens.indices v))))
        × (receive_owned_token NftIdentifierMode.ordinal
              (stored_dict d)
              item
              (TokenIdentifier.index n)
            ≡ ok (stored_dict (dictionary_put d item (OwnedTokens.indices v))))
        × AllLists (dictionary_put d item (OwnedTokens.indices v)) q
  joins agree differ before after =
      let (l, e, old) = agree item in
      let absent : occurrences n l ≡ 0 = ground (arith, old n) in
      (
        push l n,
        add_owned_token-ordinal d item n l e absent,
        receive_owned_token-ordinal d item n l e absent,
        written d item n (push l n) p q agree differ
            (pushed n l (p item) (q item) old before after (differ.0 item)),
      )

  pub leaves :
      AllLists d p
      → DiffersAt item n p q
      → p item n ≡ true
      → q item n ≡ false
      → (v : List ℕ) × (remove_owned_token NftIdentifierMode.ordinal
            (stored_dict d)
            item
            (TokenIdentifier.index n)
          ≡ ok (stored_dict (dictionary_put d item (OwnedTokens.indices v))))
        × AllLists (dictionary_put d item (OwnedTokens.indices v)) q
  leaves agree differ before after =
      let (l, e, old) = agree item in
      (
        without n l,
        remove_owned_token-ordinal d item n l e (ground (arith, old n)),
        written d item n (without n l) p q agree differ
            (taken n l (p item) (q item) old before after (differ.0 item)),
      )
