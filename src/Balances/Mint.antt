-- ===== src/Balances/Mint.antt =====
-- The books and `mint` (casper/contract/src/main.rs).
use devxdao_m.Common.{ℕ, suc, ◌+◌, ◌%◌, ◌^◌, ◌<◌, ◌≡◌, ◌∙◌, arith, inl, inr}
use native.Mathlib.Decide.{ℕ_discrete}
use devxdao_m.Common.Text.{Text}
use devxdao_m.Common.Count.{count_below-le}
use devxdao_m.Common.Decimal.{to_string}
use devxdao_m.Runtime.{Key, Host, Env, dictionary_put_self, ok}
use devxdao_m.Contract.Modes.{NftIdentifierMode}
use devxdao_m.Contract.State.{State, OwnedTokens}
use devxdao_m.Contract.Utils.Tokens.{TokenIdentifier, get_owned_tokens_dictionary_item_key}
use devxdao_m.Contract.Counts.{next_count}
use devxdao_m.Contract.Mint.{mint, MintReceipt, new_token_identifier}
use devxdao_m.Ledger.Defs.{Ledger, deployed}
use devxdao_m.Ledger.Mint.{Mints, minted, mint-Mints}
use devxdao_m.Balances.Defs.{IsConsistent, StaysConsistent, holding, is_live}
use devxdao_m.Balances.Moves.{holding_mint, put-to_string_ne}
use devxdao_m.Balances.Burn.{counts_at}

-- In ordinal mode the new token is the next index.
pub ordinal_new_token :
    (e : Env) (mode : NftIdentifierMode) (n : ℕ) {t : TokenIdentifier}
    → mode ≡ NftIdentifierMode.ordinal
    → new_token_identifier mode e n ≡ ok t
    → t ≡ TokenIdentifier.index n
unfolding new_token_identifier
ordinal_new_token e NftIdentifierMode.ordinal n o g = ground arith
ordinal_new_token e NftIdentifierMode.hash n o g = cc

-- A consistent count has room for one more.
next_count_lem :
    (h : Host) (d : Ledger) (k : Text)
    → IsConsistent h d
    → d.number_of_minted_tokens < d.total_token_supply
    → next_count (d.token_counts k) ≡ holding h d k + 1
next_count_lem h d k c lt = ground (
  arith,
  c.balances k,
  count_below-le d.number_of_minted_tokens (is_live h d.token_owners d.burnt_tokens k),
  c.supply_fits,
)

pub minted-IsConsistent :
    (h : Host) (d : Ledger) (key : Key) (metadata item_key : Text) (owned : OwnedTokens)
    → IsConsistent h d
    → d.number_of_minted_tokens < d.total_token_supply
    → get_owned_tokens_dictionary_item_key h key ≡ ok item_key
    → IsConsistent h
        (minted d (TokenIdentifier.index d.number_of_minted_tokens) key metadata item_key owned)
minted-IsConsistent h d key metadata item_key owned c lt keyed =
    let n : ℕ = d.number_of_minted_tokens in
    let wraps : (n + 1) % 2 ^ 64 ≡ suc n = omega (arith, c.supply_fits) in
    let unburnt = c.unminted_burnt n (omega arith) in
    record {
      ordinal = c.ordinal;
      supply_fits = c.supply_fits;
      within_supply = omega (arith, wraps);
      unminted_owner = λ i ge.
          put-to_string_ne d.token_owners n i key (λ e. absurd (omega (arith, wraps)))
          ∙ c.unminted_owner i (omega (arith, wraps));
      minted_owner = λ i l. elim (ℕ_discrete i n) [
        | yes same ↦ rw same (ground (arith, dictionary_put_self d.token_owners (to_string n) key))
        | no other ↦
            rw (put-to_string_ne d.token_owners n i key other)
              (c.minted_owner i (omega (arith, wraps)))
      ];
      unminted_burnt = λ i ge. c.unminted_burnt i (omega (arith, wraps));
      balances = λ k.
          rw (wraps, holding_mint h d.token_owners d.burnt_tokens n k key unburnt keyed)
            (elim (counts_at d.token_counts item_key k (next_count (d.token_counts item_key))) [
              | inl at_key ↦ ground (arith, next_count_lem h d item_key c lt)
              | inr elsewhere ↦ ground (arith, c.balances k)
            ]);
    }

-- A mint that succeeds keeps the books consistent: the new token joins its owner's balance, no other
-- balance changes, and the supply is not exceeded.
pub mint-IsConsistent :
    (h : Host) (e : Env) (d : Ledger) {s' : State} {r : MintReceipt}
    → IsConsistent h d
    → mint h e (deployed d) ≡ ok (s', r)
    → StaysConsistent h s'
mint-IsConsistent h e d {s'} c p =
    let m : Mints h e d s' = mint-Mints h e d p in
    let index = ordinal_new_token e d.identifier_mode d.number_of_minted_tokens c.ordinal m.named in
    (
      minted d (TokenIdentifier.index d.number_of_minted_tokens) m.owner m.metadata m.item_key
          m.owned,
      rw index at m.result,
      minted-IsConsistent h d m.owner m.metadata m.item_key m.owned c m.supply_left m.keyed,
    )
