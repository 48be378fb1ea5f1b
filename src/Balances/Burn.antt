-- ===== src/Balances/Burn.antt =====
-- The books and `burn` (casper/contract/src/main.rs).
use devxdao_m.Common.{
  ℕ, suc, ◌≡◌, ◌⊎◌, ◌∙◌, refl, true, false, none, some, arith, inl, inr, Bool-cases,
}
use devxdao_m.Common.Text.{Text, text_eq, text_eq→eq}
use devxdao_m.Common.Decimal.{to_string}
use devxdao_m.Runtime.{
  Key, Host, Env, Dict, dictionary_put, dictionary_put_self, dictionary_put_ne, ok,
}
use devxdao_m.Contract.Modes.{NftIdentifierMode}
use devxdao_m.Contract.State.{State}
use devxdao_m.Contract.Utils.Tokens.{
  TokenIdentifier, get_owned_tokens_dictionary_item_key, get_token_identifier_from_runtime_args,
}
use devxdao_m.Contract.Burn.{burn}
use devxdao_m.Ledger.Defs.{Ledger, deployed}
use devxdao_m.Ledger.Burn.{Burns, burnt, burn-Burns}
use devxdao_m.Balances.Defs.{IsConsistent, StaysConsistent, owned-lt}
use devxdao_m.Balances.Moves.{holding_mark, put-to_string_ne}

-- In ordinal mode the arguments name an index.
pub ordinal_token :
    (e : Env) (mode : NftIdentifierMode) {t : TokenIdentifier}
    → mode ≡ NftIdentifierMode.ordinal
    → get_token_identifier_from_runtime_args e mode ≡ ok t
    → (i : ℕ) × (t ≡ TokenIdentifier.index i)
unfolding get_token_identifier_from_runtime_args
ordinal_token e NftIdentifierMode.ordinal {t = TokenIdentifier.index i} o g = (i, refl)
ordinal_token e NftIdentifierMode.ordinal {t = TokenIdentifier.hash a} o g = ground arith
ordinal_token e NftIdentifierMode.hash o g = cc

-- A changed count under one item key, seen at any.
pub counts_at :
    (c : Dict ℕ) (item_key k : Text) (v : ℕ)
    → ((text_eq item_key k ≡ true) × (item_key ≡ k) × (dictionary_put c item_key v k ≡ some v))
      ⊎ ((text_eq item_key k ≡ false) × (dictionary_put c item_key v k ≡ c k))
counts_at c item_key k v = elim (Bool-cases (text_eq item_key k)) [
  | inl here ↦ inl (
    here,
    text_eq→eq item_key k here,
    rw (← text_eq→eq item_key k here) (dictionary_put_self c item_key v),
  )
  | inr there ↦ inr (there, dictionary_put_ne c item_key k v there)
]

pub burnt-IsConsistent :
    (h : Host) (d : Ledger) (i : ℕ) {key : Key} {item_key : Text} {count : ℕ}
    → IsConsistent h d
    → d.token_owners (to_string i) ≡ some key
    → d.burnt_tokens (to_string i) ≡ none
    → get_owned_tokens_dictionary_item_key h key ≡ ok item_key
    → d.token_counts item_key ≡ some (suc count)
    → IsConsistent h (burnt d (TokenIdentifier.index i) item_key count)
burnt-IsConsistent h d i {key} {item_key} {count} c owned unburnt keyed counted = record {
  ordinal = c.ordinal;
  supply_fits = c.supply_fits;
  within_supply = c.within_supply;
  unminted_owner = c.unminted_owner;
  minted_owner = c.minted_owner;
  unminted_burnt = λ j ge.
      put-to_string_ne d.burnt_tokens i j tt (λ e. absurd (omega (arith, owned-lt h d i c owned)))
      ∙ c.unminted_burnt j ge;
  balances = λ k. elim (counts_at d.token_counts item_key k count) [
    | inl at_key ↦ ground (
      arith,
      holding_mark h d.token_owners d.burnt_tokens d.number_of_minted_tokens i k
          (owned-lt h d i c owned) owned unburnt keyed,
      c.balances k,
    )
    | inr elsewhere ↦ ground (
      arith,
      holding_mark h d.token_owners d.burnt_tokens d.number_of_minted_tokens i k
          (owned-lt h d i c owned) owned unburnt keyed,
      c.balances k,
    )
  ];
}

-- A burn that succeeds keeps the books consistent: the burnt token leaves its owner's balance, and
-- no other balance changes.
pub burn-IsConsistent :
    (h : Host) (e : Env) (d : Ledger) {s' : State}
    → IsConsistent h d
    → burn h e (deployed d) ≡ ok s'
    → StaysConsistent h s'
burn-IsConsistent h e d {s'} c p =
    let b : Burns h e d s' = burn-Burns h e d p in
    let (i, index) = ordinal_token e d.identifier_mode c.ordinal b.named in
    (
      burnt d (TokenIdentifier.index i) b.item_key b.count,
      rw index at b.result,
      burnt-IsConsistent h d i c (rw index at b.owned) (rw index at b.unburnt) b.keyed b.counted,
    )
