-- ===== src/Owned/Mint.antt =====
-- Minting and the lists of owned tokens (casper/contract/src/main.rs, `mint`).
use devxdao_m.Common.{ℕ, ◌<◌, ◌≡◌, ◌≢◌, refl, sym, ap, ◌∙◌, subst, Bool, true, List, arith}
use devxdao_m.Common.Text.{Text, text_eq, text_eq_refl}
use devxdao_m.Common.Decimal.{to_string}
use devxdao_m.Runtime.{
  Key, Host, Env, Dict, dictionary_put, dictionary_put_self, stored_dict, ok, ok_unique,
}
use devxdao_m.Contract.Modes.{NftIdentifierMode}
use devxdao_m.Contract.State.{State, OwnedTokens}
use devxdao_m.Contract.Utils.Tokens.{TokenIdentifier, get_owned_tokens_dictionary_item_key}
use devxdao_m.Contract.Mint.{
  MintReceipt, mint, check_minting_status, check_supply, check_minter, new_token_owner,
  new_metadata, new_token_identifier, add_owned_token,
}
use devxdao_m.Ledger.Defs.{Ledger, deployed}
use devxdao_m.Ledger.Mint.{Mints, minted, mint-Mints, record_token-deployed}
use devxdao_m.Ledger.Reads.{
  get_identifier_mode-deployed, get_metadata_kind-deployed, get_number_of_minted_tokens-deployed,
}
use devxdao_m.Ledger.Writes.{increment_count-stored_dict}
use devxdao_m.Contract.Counts.{owned_tokens_actual_key}
use devxdao_m.Balances.Defs.{IsConsistent, owner_has_item_key}
use devxdao_m.Balances.Moves.{has_item_key_lem, put-to_string_ne}
use devxdao_m.Balances.Mint.{ordinal_new_token, minted-IsConsistent}
use devxdao_m.Owned.Defs.{is_held, IsListed, StaysListed}
use devxdao_m.Owned.Moves.{AllLists, DiffersAt, joins}

-- An owner written, seen at any number.
module _ (h : Host) (owners : Dict Key) (n : ℕ) (key : Key) (k : Text) where
  pub held_elsewhere :
      (i : ℕ)
      → i ≢ n
      → owner_has_item_key h k (dictionary_put owners (to_string n) key (to_string i))
        ≡ owner_has_item_key h k (owners (to_string i))
  held_elsewhere i ne = ap (owner_has_item_key h k) (put-to_string_ne owners n i key ne)

  pub held_there :
      {item : Text}
      → get_owned_tokens_dictionary_item_key h key ≡ ok item
      → owner_has_item_key h k (dictionary_put owners (to_string n) key (to_string n))
        ≡ text_eq item k
  held_there keyed =
      rw (dictionary_put_self owners (to_string n) key) (has_item_key_lem h key k keyed)

pub stored_dict-injective : {A : Type 0} {a b : Dict A} → stored_dict a ≡ stored_dict b → a ≡ b
stored_dict-injective p = cc

module _ (h : Host) (d : Ledger) (key : Key) (item : Text) where
  -- The test after the mint of the next index for an owner with the item key.
  abbrev held_after : Text → ℕ → Bool
  held_after k i =
      owner_has_item_key h k
        (dictionary_put d.token_owners (to_string d.number_of_minted_tokens) key (to_string i))

  minted_DiffersAt :
      IsConsistent h d
      → get_owned_tokens_dictionary_item_key h key ≡ ok item
      → DiffersAt item d.number_of_minted_tokens (is_held h d) held_after
  minted_DiffersAt c keyed =
      let n : ℕ = d.number_of_minted_tokens in
      (
        λ k i ne. held_elsewhere h d.token_owners n key k i ne,
        λ k elsewhere.
            held_there h d.token_owners n key k keyed
            ∙ elsewhere
            ∙ sym (ap (owner_has_item_key h k) (c.unminted_owner n (omega arith))),
      )

  -- The next index can be listed for its owner.
  pub mint-joins :
      IsConsistent h d
      → IsListed h d
      → get_owned_tokens_dictionary_item_key h key ≡ ok item
      → (v : List ℕ) × (add_owned_token NftIdentifierMode.ordinal
            (stored_dict d.owned_tokens)
            item
            (TokenIdentifier.index d.number_of_minted_tokens)
          ≡ ok (stored_dict (dictionary_put d.owned_tokens item (OwnedTokens.indices v))))
        × AllLists (dictionary_put d.owned_tokens item (OwnedTokens.indices v)) held_after
  mint-joins c listed keyed =
      let n : ℕ = d.number_of_minted_tokens in
      let (v, added, received, agree) =
        joins d.owned_tokens item n (is_held h d) held_after listed (minted_DiffersAt c keyed)
          (ap (owner_has_item_key h item) (c.unminted_owner n (omega arith)))
          (held_there h d.token_owners n key item keyed ∙ text_eq_refl item) in
      (v, added, agree)

-- A mint that succeeds keeps the lists in agreement with the owners, and the books consistent.
pub mint-StaysListed :
    (h : Host) (e : Env) (d : Ledger) {s' : State} {r : MintReceipt}
    → IsConsistent h d
    → IsListed h d
    → mint h e (deployed d) ≡ ok (s', r)
    → StaysListed h s'
mint-StaysListed h e d {s'} c listed p =
    let m : Mints h e d s' = mint-Mints h e d p in
    let n : ℕ = d.number_of_minted_tokens in
    let index = ordinal_new_token e d.identifier_mode n c.ordinal m.named in
    let (v, added, agree) = mint-joins h d m.owner m.item_key c listed m.keyed in
    let same = stored_dict-injective (ok_unique _ (rw (c.ordinal, index) at m.listed) added) in
    (
      minted d (TokenIdentifier.index n) m.owner m.metadata m.item_key m.owned,
      rw index at m.result,
      (
        minted-IsConsistent h d m.owner m.metadata m.item_key m.owned c m.supply_left m.keyed,
        subst (λ lists. AllLists lists (held_after h d m.owner m.item_key)) (sym same) agree,
      ),
    )

check_minting_status-deployed :
    (d : Ledger) → d.allow_minting ≡ true → check_minting_status (deployed d) ≡ ok tt
unfolding check_minting_status
check_minting_status-deployed d enabled = ground arith

check_supply-deployed :
    (d : Ledger)
    → d.number_of_minted_tokens < d.total_token_supply
    → check_supply (deployed d) ≡ ok d.number_of_minted_tokens
unfolding check_supply
check_supply-deployed d left = rw (get_number_of_minted_tokens-deployed d) (ground arith)

new_token_identifier-ordinal :
    (e : Env) (mode : NftIdentifierMode) (n : ℕ)
    → mode ≡ NftIdentifierMode.ordinal
    → new_token_identifier mode e n ≡ ok (TokenIdentifier.index n)
unfolding new_token_identifier
new_token_identifier-ordinal e NftIdentifierMode.ordinal n o = refl
new_token_identifier-ordinal e NftIdentifierMode.hash n o = cc

-- Where the books are consistent and the lists agree, a mint that its own checks admit succeeds: with
-- minting allowed, supply left, the minter, the owner and the metadata accepted and an owner that is an
-- account or a contract, no read or write of the contract's state fails.
pub mint_succeeds :
    (h : Host) (e : Env) (d : Ledger) (key : Key) (metadata item : Text)
    → IsConsistent h d
    → IsListed h d
    → d.allow_minting ≡ true
    → d.number_of_minted_tokens < d.total_token_supply
    → check_minter e (deployed d) ≡ ok tt
    → new_token_owner e (deployed d) ≡ ok key
    → new_metadata h e (deployed d) d.nft_metadata_kind ≡ ok metadata
    → get_owned_tokens_dictionary_item_key h key ≡ ok item
    → (s' : State) × (r : MintReceipt) × (mint h e (deployed d) ≡ ok (s', r))
unfolding mint owned_tokens_actual_key
mint_succeeds h e d key metadata item c listed enabled left allowed owned_by described keyed =
    let n : ℕ = d.number_of_minted_tokens in
    let (v, added, agree) = mint-joins h d key item c listed keyed in
    let added_in_mode =
      subst
        (λ m.
          add_owned_token m (stored_dict d.owned_tokens) item (TokenIdentifier.index n)
          ≡ ok (stored_dict (dictionary_put d.owned_tokens item (OwnedTokens.indices v))))
        (sym c.ordinal) added in
    (
      deployed (minted d (TokenIdentifier.index n) key metadata item (OwnedTokens.indices v)),
      record {
        receipt_name = d.receipt_name;
        owned_tokens_key = Key.other (h.owned_tokens_address item);
        token_identifier = to_string n;
      },
      rw (check_minting_status-deployed d enabled, check_supply-deployed d left)
          (rw (allowed, owned_by, get_metadata_kind-deployed d)
            (rw (described, get_identifier_mode-deployed d)
              (rw (new_token_identifier-ordinal e d.identifier_mode n c.ordinal) (
                rw
                  (record_token-deployed (TokenIdentifier.index n) key d.nft_metadata_kind metadata
                    d)
                  (rw (keyed, added_in_mode)
                    (rw (increment_count-stored_dict d.token_counts item))))))),
    )
