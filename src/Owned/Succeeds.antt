-- ===== src/Owned/Succeeds.antt =====
-- When `transfer` and `burn` succeed (casper/contract/src/main.rs).
use devxdao_m.Common.{
  ℕ, suc, ◌<◌, ◌≡◌, sym, ap, Bool, true, none, some, arith, zero, inl, inr, Option-cases,
}
use native.Mathlib.Decide.{ℕ_discrete}
use devxdao_m.Common.Count.{count_below}
use devxdao_m.Common.Text.{Text, text_eq_refl}
use devxdao_m.Common.Decimal.{to_string}
use devxdao_m.Runtime.{Key, key_eq_refl, Host, Env, Arg, Dict, dictionary_put, stored_dict, ok}
use devxdao_m.Contract.Modes.{NftIdentifierMode, OwnershipMode}
use devxdao_m.Contract.State.{State, OwnedTokens}
use devxdao_m.Contract.Utils.Tokens.{
  TokenIdentifier, get_dictionary_item_key, get_token_identifier_from_runtime_args,
  get_owned_tokens_dictionary_item_key,
}
use devxdao_m.Contract.Transfer.{
  TransferPlan, TransferReceipt, reassign_token, check_rights, check_account_whitelist,
  execute_transfer, transfer,
}
use devxdao_m.Contract.Constants.{arg_source_key, arg_target_key}
use devxdao_m.Contract.Counts.{decrement_count, owned_tokens_actual_key}
use devxdao_m.Ledger.Writes.{increment_count-stored_dict}
use devxdao_m.Rights.Plan.{plan_transfer_complete, require_unburnt-deployed}
use devxdao_m.Ledger.Defs.{Ledger, deployed}
use devxdao_m.Ledger.Transfer.{Plans, transferred}
use devxdao_m.Balances.Defs.{IsConsistent, is_live, owned-lt}
use devxdao_m.Balances.Moves.{has_item_key_lem}
use devxdao_m.Owned.Defs.{IsListed}
use devxdao_m.Owned.Transfer.{transfer_lists}
use devxdao_m.Contract.Burn.{require_owner, burn}
use devxdao_m.Contract.Utils.Caller.{get_verified_caller, enforce_only_contract_creator_can_invoke}
use devxdao_m.Ledger.Burn.{burnt}
use devxdao_m.Ledger.Reads.{get_identifier_mode-deployed}
use devxdao_m.Ledger.Writes.{upsert-as_is}

count_below-positive : (n i : ℕ) (p : ℕ → Bool) → i < n → p i ≡ true → 0 < count_below n p
unfolding count_below
count_below-positive zero i p lt here = elim lt [ ]
count_below-positive (suc n) i p lt here = elim (ℕ_discrete n i) [
  | yes same ↦ ground (arith, ap p same)
  | no ne ↦ ground (arith, count_below-positive n i p (omega arith) here)
]

-- The owner of a live token is counted at least one.
counted_owner :
    (h : Host) (d : Ledger) (i : ℕ) (from : Key) (from_item : Text)
    → IsConsistent h d
    → d.token_owners (to_string i) ≡ some from
    → d.burnt_tokens (to_string i) ≡ none
    → get_owned_tokens_dictionary_item_key h from ≡ ok from_item
    → (count : ℕ) × (d.token_counts from_item ≡ some (suc count))
counted_owner h d i from from_item c owned unburnt keyed =
    let live : is_live h d.token_owners d.burnt_tokens from_item i ≡ true =
      ground
        (arith, owned, unburnt, has_item_key_lem h from from_item keyed, text_eq_refl from_item) in
    let positive =
      count_below-positive d.number_of_minted_tokens i
        (is_live h d.token_owners d.burnt_tokens from_item) (owned-lt h d i c owned) live in
    elim (Option-cases (d.token_counts from_item)) [
      | inl none_there ↦ ground (arith, c.balances from_item)
      | inr (zero, there) ↦ ground (arith, c.balances from_item)
      | inr (suc count, there) ↦ (count, there)
    ]

reassign_token-deployed :
    (d : Dict Key) (t : TokenIdentifier) (from target : Key)
    → d (get_dictionary_item_key t) ≡ some from
    → reassign_token (stored_dict d) t from target
      ≡ ok (stored_dict (dictionary_put d (get_dictionary_item_key t) target))
unfolding reassign_token
reassign_token-deployed d t from target owned = ground (arith, key_eq_refl from)

decrement_count-stored_dict :
    (c : Dict ℕ) (k : Text) {n : ℕ}
    → c k ≡ some (suc n)
    → decrement_count (stored_dict c) k ≡ ok (stored_dict (dictionary_put c k n))
unfolding decrement_count
decrement_count-stored_dict c k counted = ground arith

abbrev transfer_plan : ℕ → Key → Key → TransferPlan
transfer_plan i from target = record {
  identifier_mode = NftIdentifierMode.ordinal;
  token_identifier = TokenIdentifier.index i;
  from_token_owner_key = from;
  target_owner_key = target;
}

module _ (h : Host) (d : Ledger) (i : ℕ) (from target : Key) (from_item target_item : Text) where
  execute_succeeds :
      IsConsistent h d
      → IsListed h d
      → d.token_owners (to_string i) ≡ some from
      → d.burnt_tokens (to_string i) ≡ none
      → get_owned_tokens_dictionary_item_key h from ≡ ok from_item
      → get_owned_tokens_dictionary_item_key h target ≡ ok target_item
      → (s' : State) × (r : TransferReceipt) × (execute_transfer h
            (deployed d)
            (transfer_plan i from target)
          ≡ ok (s', r))
  unfolding execute_transfer owned_tokens_actual_key
  execute_succeeds c listed owned unburnt keyed_from keyed_target =
      let (count, counted) = counted_owner h d i from from_item c owned unburnt keyed_from in
      let (v, w, removed, received, agree) =
        transfer_lists h d i from target from_item target_item listed owned keyed_from
          keyed_target in
      (
        deployed (
            transferred d (TokenIdentifier.index i) target from_item target_item count
              (OwnedTokens.indices v) (OwnedTokens.indices w)),
        record {
          receipt_name = d.receipt_name;
          owned_tokens_key = Key.other (h.owned_tokens_address target_item);
        },
        rw (keyed_target, keyed_from)
            (rw (reassign_token-deployed d.token_owners (TokenIdentifier.index i) from target owned)
              (rw removed (
                rw (decrement_count-stored_dict d.token_counts from_item counted) (
                  rw received (
                    rw (
                      increment_count-stored_dict (dictionary_put d.token_counts from_item count)
                        target_item)))))),
      )

-- Where the books are consistent and the lists agree, a transfer that its own checks admit succeeds: of a
-- live token of an account or a contract, named with its owner as the source, in ownership mode
-- transferable, by a caller with the right to it and to a whitelisted target.
pub transfer_succeeds :
    (h : Host) (e : Env) (d : Ledger) (i : ℕ) (from target : Key) (from_item target_item : Text)
    → IsConsistent h d
    → IsListed h d
    → d.ownership_mode ≡ OwnershipMode.transferable
    → get_token_identifier_from_runtime_args e d.identifier_mode ≡ ok (TokenIdentifier.index i)
    → d.token_owners (to_string i) ≡ some from
    → d.burnt_tokens (to_string i) ≡ none
    → e.arg_key arg_source_key ≡ Arg.given from
    → e.arg_key arg_target_key ≡ Arg.given target
    → check_rights e (deployed d) d.holder_mode (TokenIdentifier.index i) from ≡ ok tt
    → check_account_whitelist (deployed d) target ≡ ok tt
    → get_owned_tokens_dictionary_item_key h from ≡ ok from_item
    → get_owned_tokens_dictionary_item_key h target ≡ ok target_item
    → (s' : State) × (r : TransferReceipt) × (transfer h e (deployed d) ≡ ok (s', r))
unfolding transfer
transfer_succeeds h e d i from target from_item target_item c listed transferable named owned
      unburnt source given rights whitelisted keyed_from keyed_target =
    let (s', r, done) =
      execute_succeeds h d i from target from_item target_item c listed owned unburnt keyed_from
        keyed_target in
    let a : Plans e d (transfer_plan i from target) = record {
      mode = sym c.ordinal;
      transferable = transferable;
      named = named;
      unburnt = unburnt;
      owned_by = owned;
      source_given = source;
      target_given = given;
      rights = rights;
      whitelisted = whitelisted;
    } in
    (s', r, rw (plan_transfer_complete e d (transfer_plan i from target) a) done)

require_owner-deployed :
    (d : Ledger) (t : TokenIdentifier) (owner : Key)
    → d.token_owners (get_dictionary_item_key t) ≡ some owner
    → require_owner (deployed d) t owner ≡ ok owner
unfolding require_owner
require_owner-deployed d t owner owned = ground (arith, key_eq_refl owner)

-- Where the books are consistent, a burn that its own checks admit succeeds: of a live token, by the
-- installer's account, where the verified caller is the owner on record and an account or a contract.
pub burn_succeeds :
    (h : Host) (e : Env) (d : Ledger) (i : ℕ) (owner : Key) (item : Text)
    → IsConsistent h d
    → enforce_only_contract_creator_can_invoke e (deployed d) ≡ ok tt
    → get_token_identifier_from_runtime_args e d.identifier_mode ≡ ok (TokenIdentifier.index i)
    → get_verified_caller e (deployed d) ≡ ok owner
    → d.token_owners (to_string i) ≡ some owner
    → d.burnt_tokens (to_string i) ≡ none
    → get_owned_tokens_dictionary_item_key h owner ≡ ok item
    → (s' : State) × (burn h e (deployed d) ≡ ok s')
unfolding burn
burn_succeeds h e d i owner item c by_installer named by owned unburnt keyed =
    let (count, counted) = counted_owner h d i owner item c owned unburnt keyed in
    (
      deployed (burnt d (TokenIdentifier.index i) item count),
      rw (by_installer, get_identifier_mode-deployed d)
          (rw (named, by)
            (rw
              (
                require_owner-deployed d (TokenIdentifier.index i) owner owned,
                require_unburnt-deployed d (TokenIdentifier.index i) unburnt,
              )
              (rw (upsert-as_is d.burnt_tokens, keyed)
                (rw (decrement_count-stored_dict d.token_counts item counted))))),
    )
