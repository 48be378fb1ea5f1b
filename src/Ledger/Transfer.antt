-- ===== src/Ledger/Transfer.antt =====
-- What a transfer that succeeds has checked and written (casper/contract/src/main.rs, `transfer`).
use devxdao_m.Common.{ℕ, suc, ◌≡◌, refl, sym, subst, ◌∙◌, not, none, some, arith}
use devxdao_m.Common.Text.{Text}
use devxdao_m.Runtime.{
  Key, key_eq, key_eq→eq, Host, Env, Arg, Dict, DictCell, dictionary_put, stored_dict, ok, >>=-elim,
  ok-fst, ok-injective, revert_if, revert_if-eq-ok,
}
use devxdao_m.Contract.Constants.{arg_source_key, arg_target_key}
use devxdao_m.Contract.Error.{
  NftCoreError, missing_account_hash, invalid_account_hash, invalid_account,
}
use devxdao_m.Contract.Modes.{OwnershipMode}
use devxdao_m.Contract.State.{State, OwnedTokens}
use devxdao_m.Contract.Utils.Args.{get_required_arg}
use devxdao_m.Contract.Utils.Tokens.{
  TokenIdentifier, get_dictionary_item_key, get_token_identifier_from_runtime_args,
  get_owned_tokens_dictionary_item_key,
}
use devxdao_m.Contract.Counts.{
  require_transferable, require_unburnt, next_count, decrement_count, increment_count,
  owned_tokens_actual_key,
}
use devxdao_m.Contract.Transfer.{
  TransferPlan, TransferReceipt, plan_transfer, execute_transfer, token_owner, check_rights,
  check_account_whitelist, reassign_token, remove_owned_token, receive_owned_token,
}
use devxdao_m.Ledger.Defs.{Ledger, deployed}
use devxdao_m.Ledger.Reads.{get_holder_mode-deployed, get_identifier_mode-deployed}
use devxdao_m.Ledger.Writes.{decrement_count-eq-ok, increment_count-stored_dict}
use devxdao_m.Ledger.Owned.{remove_owned_token-eq-ok, receive_owned_token-eq-ok}
use devxdao_m.Ledger.Checks.{require_transferable-eq-ok, require_unburnt-eq-ok, token_owner-eq-ok}

pub get_required_arg-eq-ok :
    {A : Type 0} (arg : Arg A) (missing invalid : NftCoreError) {a : A}
    → get_required_arg arg missing invalid ≡ ok a
    → arg ≡ Arg.given a
get_required_arg-eq-ok arg missing invalid h = ground arith

-- What the checks of a transfer have established.
pub record Plans (e : Env) (d : Ledger) (p : TransferPlan) : Type 0 where
  pub mode : p.identifier_mode ≡ d.identifier_mode
  pub transferable : d.ownership_mode ≡ OwnershipMode.transferable
  pub named : get_token_identifier_from_runtime_args e d.identifier_mode ≡ ok p.token_identifier
  pub unburnt : d.burnt_tokens (get_dictionary_item_key p.token_identifier) ≡ none
  pub owned_by :
      d.token_owners (get_dictionary_item_key p.token_identifier) ≡ some p.from_token_owner_key
  pub source_given : e.arg_key arg_source_key ≡ Arg.given p.from_token_owner_key
  pub target_given : e.arg_key arg_target_key ≡ Arg.given p.target_owner_key
  pub rights :
      check_rights e (deployed d) d.holder_mode p.token_identifier p.from_token_owner_key ≡ ok tt
  pub whitelisted : check_account_whitelist (deployed d) p.target_owner_key ≡ ok tt

pub plan_transfer-Plans :
    (e : Env) (d : Ledger) {p : TransferPlan} → plan_transfer e (deployed d) ≡ ok p → Plans e d p
unfolding plan_transfer
plan_transfer-Plans e d p0 = >>=-elim (require_transferable (deployed d)) _ p0 λ u1 q1 p1.
    let p2 = rw (get_holder_mode-deployed d) at p1 in
    let p3 = rw (get_identifier_mode-deployed d) at p2 in
    >>=-elim (get_token_identifier_from_runtime_args e d.identifier_mode) _ p3 λ t q4 p4.
      >>=-elim (require_unburnt (deployed d) t) _ p4 λ u5 q5 p5.
        >>=-elim (token_owner (deployed d) t) _ p5 λ owner q6 p6.
          >>=-elim
            (get_required_arg (e.arg_key arg_source_key) missing_account_hash invalid_account_hash)
            _ p6
            λ from q7 p7.
              >>=-elim (revert_if (not (key_eq from owner)) invalid_account) _ p7 λ u8 q8 p8.
                >>=-elim (check_rights e (deployed d) d.holder_mode t owner) _ p8 λ u9 q9 p9.
                  >>=-elim
                    (get_required_arg (e.arg_key arg_target_key) missing_account_hash
                      invalid_account_hash)
                    _ p9
                    λ target q10 p10.
                      >>=-elim (check_account_whitelist (deployed d) target) _ p10 λ u11 q11 p11.
                        let same : from ≡ owner = ground (
                          arith,
                          key_eq→eq from owner,
                          revert_if-eq-ok (not (key_eq from owner)) invalid_account q8,
                        ) in
                        subst (Plans e d) (ok-injective p11) (record {
                          mode = refl;
                          transferable = require_transferable-eq-ok d q1;
                          named = q4;
                          unburnt = require_unburnt-eq-ok d t q5;
                          owned_by = rw same (token_owner-eq-ok d t q6);
                          source_given =
                              get_required_arg-eq-ok (e.arg_key arg_source_key) missing_account_hash
                                invalid_account_hash q7;
                          target_given =
                              get_required_arg-eq-ok (e.arg_key arg_target_key) missing_account_hash
                                invalid_account_hash q10;
                          rights = rw same q9;
                          whitelisted = q11;
                        })

pub reassign_token-eq-ok :
    (d : Dict Key) (t : TokenIdentifier) (from target : Key) {c : DictCell Key}
    → reassign_token (stored_dict d) t from target ≡ ok c
    → c ≡ stored_dict (dictionary_put d (get_dictionary_item_key t) target)
unfolding reassign_token
reassign_token-eq-ok d t from target h = ground arith

-- The counts after one token has gone from an item key to another.
abbrev pub moved_counts : Dict ℕ → Text → Text → ℕ → Dict ℕ
moved_counts c from_item target_item count =
    dictionary_put (dictionary_put c from_item count) target_item
      (next_count (dictionary_put c from_item count target_item))

-- The ledger after a transfer.
abbrev pub transferred :
    Ledger → TokenIdentifier → Key → Text → Text → ℕ → OwnedTokens → OwnedTokens → Ledger
transferred d t target from_item target_item count removed received = record d {
  token_owners = dictionary_put d.token_owners (get_dictionary_item_key t) target;
  owned_tokens =
      dictionary_put (dictionary_put d.owned_tokens from_item removed) target_item received;
  token_counts = moved_counts d.token_counts from_item target_item count;
  operator = dictionary_put d.operator (get_dictionary_item_key t) none;
}

-- What the writes of a transfer have done.
pub record Executes (h : Host) (d : Ledger) (p : TransferPlan) (s' : State) : Type 0 where
  pub from_item : Text
  pub target_item : Text
  pub count : ℕ
  pub removed : OwnedTokens
  pub received : OwnedTokens
  pub keyed_from : get_owned_tokens_dictionary_item_key h p.from_token_owner_key ≡ ok from_item
  pub keyed_target : get_owned_tokens_dictionary_item_key h p.target_owner_key ≡ ok target_item
  pub counted : d.token_counts from_item ≡ some (suc count)
  pub taken :
      remove_owned_token p.identifier_mode (stored_dict d.owned_tokens) from_item p.token_identifier
      ≡ ok (stored_dict (dictionary_put d.owned_tokens from_item removed))
  pub listed :
      receive_owned_token p.identifier_mode
        (stored_dict (dictionary_put d.owned_tokens from_item removed))
        target_item
        p.token_identifier
      ≡ ok (
          stored_dict
            (dictionary_put (dictionary_put d.owned_tokens from_item removed) target_item received))
  pub result :
      s'
      ≡ deployed (
          transferred d p.token_identifier p.target_owner_key from_item target_item count removed
            received)

pub execute_transfer-Executes :
    (h : Host) (d : Ledger) (p : TransferPlan) {s' : State} {r : TransferReceipt}
    → execute_transfer h (deployed d) p ≡ ok (s', r)
    → Executes h d p s'
unfolding execute_transfer owned_tokens_actual_key
execute_transfer-Executes h d p p0 =
    >>=-elim (get_owned_tokens_dictionary_item_key h p.target_owner_key) _ p0 λ target_item q1 p1.
      >>=-elim (get_owned_tokens_dictionary_item_key h p.from_token_owner_key) _ p1
        λ from_item q2 p2.
          >>=-elim
            (reassign_token (stored_dict d.token_owners) p.token_identifier p.from_token_owner_key
              p.target_owner_key)
            _ p2
            λ owners q3 p3.
              >>=-elim
                (remove_owned_token p.identifier_mode (stored_dict d.owned_tokens) from_item
                  p.token_identifier)
                _ p3
                λ o1 q4 p4.
                  >>=-elim (decrement_count (stored_dict d.token_counts) from_item) _ p4 λ c1 q5 p5.
                    >>=-elim
                      (receive_owned_token p.identifier_mode o1 target_item p.token_identifier) _ p5
                      λ o2 q6 p6. >>=-elim (increment_count c1 target_item) _ p6 λ c2 q7 p7.
                        let (x, w1) =
                          remove_owned_token-eq-ok p.identifier_mode d.owned_tokens from_item
                            p.token_identifier q4 in
                        let q6' = rw w1 at q6 in
                        let (y, w2) =
                          receive_owned_token-eq-ok p.identifier_mode
                            (dictionary_put d.owned_tokens from_item x) target_item
                            p.token_identifier q6' in
                        let (n, counted, w3) = decrement_count-eq-ok d.token_counts from_item q5 in
                        let w4 =
                          rw w3 at (sym q7)
                          ∙ increment_count-stored_dict (dictionary_put d.token_counts from_item n)
                              target_item in
                        let w5 =
                          reassign_token-eq-ok d.token_owners p.token_identifier
                            p.from_token_owner_key p.target_owner_key q3 in
                        record {
                          from_item = from_item;
                          target_item = target_item;
                          count = n;
                          removed = x;
                          received = y;
                          keyed_from = q2;
                          keyed_target = q1;
                          counted = counted;
                          taken = rw w1 at q4;
                          listed = rw w2 at q6';
                          result = sym (ok-fst (rw (w5, w2, ok-injective w4) at p7));
                        }
