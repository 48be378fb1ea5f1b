-- ===== src/Ledger/Approve.antt =====
-- What an approval that succeeds (casper/contract/src/main.rs, `approve`, `set_approval_for_all`) has
-- checked and written.
use devxdao_m.Common.{◌≡◌, sym, Bool, false, not, Option, none, some, List, arith, if◌then◌else◌}
use devxdao_m.Common.Text.{Text}
use devxdao_m.Runtime.{
  Key, key_eq, key_eq→eq, Host, Env, Arg, dictionary_put, stored_dict, ok, >>=-elim, ok-injective,
  revert_if, revert_if-eq-ok, unwrap_or_revert_with,
}
use devxdao_m.Contract.Constants.{arg_operator, arg_approve_all}
use devxdao_m.Contract.Error.{
  invalid_account_hash, missing_approved_account_hash, invalid_approved_account_hash,
  invalid_account, missing_approve_all, invalid_approve_all, missing_operator, invalid_operator,
}
use devxdao_m.Contract.Modes.{OwnershipMode}
use devxdao_m.Contract.State.{State}
use devxdao_m.Contract.Utils.Args.{get_required_arg}
use devxdao_m.Contract.Utils.Caller.{get_verified_caller}
use devxdao_m.Contract.Utils.Tokens.{
  TokenIdentifier, get_dictionary_item_key, get_token_identifier_from_runtime_args,
  get_owned_tokens_dictionary_item_key, get_token_identifiers_from_dictionary,
}
use devxdao_m.Contract.Counts.{require_transferable, require_unburnt}
use devxdao_m.Contract.Approve.{check_index, approve, put_owned_operators, set_approval_for_all}
use devxdao_m.Ledger.Defs.{Ledger, deployed}
use devxdao_m.Ledger.Reads.{get_identifier_mode-deployed, get_number_of_minted_tokens-deployed}
use devxdao_m.Ledger.Writes.{get-as_is, unwrap_or_revert_with-eq-ok}
use devxdao_m.Ledger.Checks.{require_transferable-eq-ok, require_unburnt-eq-ok}
use devxdao_m.Ledger.Transfer.{get_required_arg-eq-ok}

pub record Approves (e : Env) (d : Ledger) (s' : State) : Type 0 where
  pub token : TokenIdentifier
  pub owner : Key
  pub operator : Key
  pub transferable : d.ownership_mode ≡ OwnershipMode.transferable
  pub by_owner : get_verified_caller e (deployed d) ≡ ok owner
  pub named : get_token_identifier_from_runtime_args e d.identifier_mode ≡ ok token
  pub in_bounds : check_index d.identifier_mode token d.number_of_minted_tokens ≡ ok tt
  pub owned : d.token_owners (get_dictionary_item_key token) ≡ some owner
  pub unburnt : d.burnt_tokens (get_dictionary_item_key token) ≡ none
  pub operator_given : e.arg_key arg_operator ≡ Arg.given operator
  pub not_self : key_eq owner operator ≡ false
  pub result :
      s'
      ≡ deployed (record d {
        operator = dictionary_put d.operator (get_dictionary_item_key token) (some operator);
      })

pub approve-Approves :
    (e : Env) (d : Ledger) {s' : State} → approve e (deployed d) ≡ ok s' → Approves e d s'
unfolding approve
approve-Approves e d p0 = >>=-elim (require_transferable (deployed d)) _ p0 λ u1 q1 p1.
    >>=-elim (get_verified_caller e (deployed d)) _ p1 λ caller q2 p2.
      let p3 = rw (get_identifier_mode-deployed d) at p2 in
      >>=-elim (get_token_identifier_from_runtime_args e d.identifier_mode) _ p3 λ t q4 p4.
        let p5 = rw (get_number_of_minted_tokens-deployed d) at p4 in
        >>=-elim (check_index d.identifier_mode t d.number_of_minted_tokens) _ p5 λ u6 q6 p6.
          let p7 = rw (get-as_is d.token_owners (get_dictionary_item_key t)) at p6 in
          >>=-elim
            (unwrap_or_revert_with (d.token_owners (get_dictionary_item_key t))
              invalid_account_hash)
            _ p7
            λ owner q8 p8.
              >>=-elim (revert_if (not (key_eq owner caller)) invalid_account_hash) _ p8 λ u9 q9 p9.
                >>=-elim (require_unburnt (deployed d) t) _ p9 λ u10 q10 p10.
                  >>=-elim
                    (get_required_arg (e.arg_key arg_operator) missing_approved_account_hash
                      invalid_approved_account_hash)
                    _ p10
                    λ op q11 p11.
                      >>=-elim (revert_if (key_eq owner op) invalid_account) _ p11 λ u12 q12 p12.
                        let same : owner ≡ caller = ground (
                          arith,
                          key_eq→eq owner caller,
                          revert_if-eq-ok (not (key_eq owner caller)) invalid_account_hash q9,
                        ) in
                        record {
                          token = t;
                          owner = owner;
                          operator = op;
                          transferable = require_transferable-eq-ok d q1;
                          by_owner = rw same q2;
                          named = q4;
                          in_bounds = q6;
                          owned =
                              unwrap_or_revert_with-eq-ok
                                (d.token_owners (get_dictionary_item_key t)) invalid_account_hash
                                q8;
                          unburnt = require_unburnt-eq-ok d t q10;
                          operator_given =
                              get_required_arg-eq-ok (e.arg_key arg_operator)
                                missing_approved_account_hash invalid_approved_account_hash q11;
                          not_self = revert_if-eq-ok (key_eq owner op) invalid_account q12;
                          result = sym (ok-injective p12);
                        }

pub record ApprovesAll (h : Host) (e : Env) (d : Ledger) (s' : State) : Type 0 where
  pub approve_all : Bool
  pub operator : Key
  pub caller : Key
  pub item_key : Text
  pub owned_tokens : Option (List TokenIdentifier)
  pub transferable : d.ownership_mode ≡ OwnershipMode.transferable
  pub approve_all_given : e.arg_bool arg_approve_all ≡ Arg.given approve_all
  pub operator_given : e.arg_key arg_operator ≡ Arg.given operator
  pub by : get_verified_caller e (deployed d) ≡ ok caller
  pub keyed : get_owned_tokens_dictionary_item_key h caller ≡ ok item_key
  pub listed :
      get_token_identifiers_from_dictionary d.identifier_mode (stored_dict d.owned_tokens) item_key
      ≡ ok owned_tokens
  pub result :
      s'
      ≡ deployed (record d {
        operator =
            put_owned_operators d.operator owned_tokens
              (if approve_all then some operator else none);
      })

pub set_approval_for_all-ApprovesAll :
    (h : Host) (e : Env) (d : Ledger) {s' : State}
    → set_approval_for_all h e (deployed d) ≡ ok s'
    → ApprovesAll h e d s'
unfolding set_approval_for_all
set_approval_for_all-ApprovesAll h e d p0 =
    >>=-elim (require_transferable (deployed d)) _ p0 λ u1 q1 p1.
      >>=-elim
        (get_required_arg (e.arg_bool arg_approve_all) missing_approve_all invalid_approve_all) _ p1
        λ b q2 p2.
          >>=-elim (get_required_arg (e.arg_key arg_operator) missing_operator invalid_operator) _
            p2
            λ op q3 p3. >>=-elim (get_verified_caller e (deployed d)) _ p3 λ caller q4 p4.
              >>=-elim (get_owned_tokens_dictionary_item_key h caller) _ p4 λ k q5 p5.
                let p6 = rw (get_identifier_mode-deployed d) at p5 in
                >>=-elim
                  (get_token_identifiers_from_dictionary d.identifier_mode
                    (stored_dict d.owned_tokens) k)
                  _ p6
                  λ l q7 p7. record {
                    approve_all = b;
                    operator = op;
                    caller = caller;
                    item_key = k;
                    owned_tokens = l;
                    transferable = require_transferable-eq-ok d q1;
                    approve_all_given =
                        get_required_arg-eq-ok (e.arg_bool arg_approve_all) missing_approve_all
                          invalid_approve_all q2;
                    operator_given =
                        get_required_arg-eq-ok (e.arg_key arg_operator) missing_operator
                          invalid_operator q3;
                    by = q4;
                    keyed = q5;
                    listed = q7;
                    result = sym (ok-injective p7);
                  }
