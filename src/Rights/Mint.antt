-- ===== src/Rights/Mint.antt =====
-- What a mint changes (casper/contract/src/main.rs, `mint`), and what it does not look at.
use devxdao_m.Common.{ℕ, ◌+◌, ◌%◌, ◌^◌, ◌<◌, ◌≡◌, refl, true, false, some, arith}
use devxdao_m.Common.Text.{Text, text_eq}
use devxdao_m.Runtime.{Key, Host, Env, Arg, dictionary_put_self, dictionary_put_ne, ok}
use devxdao_m.Contract.Constants.{arg_token_id_hash}
use devxdao_m.Contract.Modes.{NftIdentifierMode}
use devxdao_m.Contract.State.{State}
use devxdao_m.Contract.Utils.Tokens.{
  TokenIdentifier, get_dictionary_item_key, get_owned_tokens_dictionary_item_key,
}
use devxdao_m.Contract.Mint.{mint, MintReceipt, new_token_owner, new_token_identifier}
use devxdao_m.Ledger.Defs.{Ledger, deployed}
use devxdao_m.Ledger.Mint.{Mints, minted, mint-Mints}

-- A mint needs minting to be allowed and supply to be left; the new token's owner and issuer are the
-- owner that the ownership mode gives, one token more is counted as minted, and the owners and issuers
-- under all other keys, the operators and the marks of burnt tokens stay.
pub mint_effect :
    (h : Host) (e : Env) (d : Ledger) {s' : State} {r : MintReceipt}
    → mint h e (deployed d) ≡ ok (s', r)
    → (d' : Ledger) × (t : TokenIdentifier) × (owner : Key) × (s' ≡ deployed d')
      × (d.allow_minting ≡ true)
      × (d.number_of_minted_tokens < d.total_token_supply)
      × (new_token_owner e (deployed d) ≡ ok owner)
      × (new_token_identifier d.identifier_mode e d.number_of_minted_tokens ≡ ok t)
      × (d'.token_owners (get_dictionary_item_key t) ≡ some owner)
      × (d'.token_issuers (get_dictionary_item_key t) ≡ some owner)
      × (d'.number_of_minted_tokens ≡ (d.number_of_minted_tokens + 1) % 2 ^ 64)
      × ((j : Text)
          → text_eq (get_dictionary_item_key t) j ≡ false
          → (d'.token_owners j ≡ d.token_owners j) × (d'.token_issuers j ≡ d.token_issuers j))
      × (d'.operator ≡ d.operator)
      × (d'.burnt_tokens ≡ d.burnt_tokens)
mint_effect h e d {s'} p =
    let m : Mints h e d s' = mint-Mints h e d p in
    let k = get_dictionary_item_key m.token in
    (
      minted d m.token m.owner m.metadata m.item_key m.owned,
      m.token,
      m.owner,
      m.result,
      m.enabled,
      m.supply_left,
      m.owned_by,
      m.named,
      dictionary_put_self d.token_owners k m.owner,
      dictionary_put_self d.token_issuers k m.owner,
      refl,
      λ j ne. (
        dictionary_put_ne d.token_owners k j m.owner ne,
        dictionary_put_ne d.token_issuers k j m.owner ne,
      ),
      refl,
      refl,
    )

hashed_token :
    (e : Env) (mode : NftIdentifierMode) (n : ℕ) (k : Text) {t : TokenIdentifier}
    → mode ≡ NftIdentifierMode.hash
    → e.arg_text arg_token_id_hash ≡ Arg.given k
    → new_token_identifier mode e n ≡ ok t
    → t ≡ TokenIdentifier.hash k
unfolding new_token_identifier
hashed_token e NftIdentifierMode.ordinal n k o g p = cc
hashed_token e NftIdentifierMode.hash n k o g p = ground arith

-- In hash mode `mint` does not look whether the hash has an owner: a mint that succeeds with a hash that
-- a victim owns makes the new owner the owner on record, while all operators, the one of the hash too,
-- and the victim's balance and list of owned tokens stay as they were, the latter two if the victim's
-- item key is not the new owner's.
pub mint_reassigns :
    (h : Host) (e : Env) (d : Ledger) (hash : Text) (victim : Key) {victim_item : Text} {s' : State}
    {r : MintReceipt}
    → d.identifier_mode ≡ NftIdentifierMode.hash
    → e.arg_text arg_token_id_hash ≡ Arg.given hash
    → d.token_owners hash ≡ some victim
    → get_owned_tokens_dictionary_item_key h victim ≡ ok victim_item
    → mint h e (deployed d) ≡ ok (s', r)
    → (d' : Ledger) × (owner : Key) × (owner_item : Text) × (s' ≡ deployed d')
      × (new_token_owner e (deployed d) ≡ ok owner)
      × (get_owned_tokens_dictionary_item_key h owner ≡ ok owner_item)
      × (d'.token_owners hash ≡ some owner)
      × (d'.operator ≡ d.operator)
      × (text_eq owner_item victim_item ≡ false
          → (d'.token_counts victim_item ≡ d.token_counts victim_item)
            × (d'.owned_tokens victim_item ≡ d.owned_tokens victim_item))
mint_reassigns h e d hash victim {victim_item} {s'} mode given owned keyed p =
    let m : Mints h e d s' = mint-Mints h e d p in
    let same = hashed_token e d.identifier_mode d.number_of_minted_tokens hash mode given m.named in
    (
      minted d (TokenIdentifier.hash hash) m.owner m.metadata m.item_key m.owned,
      m.owner,
      m.item_key,
      rw same at m.result,
      m.owned_by,
      m.keyed,
      dictionary_put_self d.token_owners hash m.owner,
      refl,
      λ ne. (
        dictionary_put_ne d.token_counts m.item_key victim_item _ ne,
        dictionary_put_ne d.owned_tokens m.item_key victim_item _ ne,
      ),
    )
