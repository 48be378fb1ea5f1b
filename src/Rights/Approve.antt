-- ===== src/Rights/Approve.antt =====
-- Approvals (casper/contract/src/main.rs, `approve`, `set_approval_for_all`, `get_approved`).
use devxdao_m.Common.{
  ℕ, ◌≡◌, refl, ap, ◌∙◌, Bool, Option, none, some, List, [], ◌∷◌, any, arith, if◌then◌else◌,
  unwrap_or,
}
use devxdao_m.Common.Text.{Text, text_eq}
use devxdao_m.Runtime.{
  Key, Host, Env, Arg, Dict, dictionary_put, dictionary_put_self, stored_dict, ok, ok_unique,
}
use devxdao_m.Contract.Constants.{arg_operator, arg_approve_all}
use devxdao_m.Contract.Modes.{NftIdentifierMode}
use devxdao_m.Contract.State.{State}
use devxdao_m.Contract.Utils.Caller.{get_verified_caller}
use devxdao_m.Contract.Utils.Tokens.{
  TokenIdentifier, get_dictionary_item_key, get_owned_tokens_dictionary_item_key,
  get_token_identifier_from_runtime_args, get_token_identifiers_from_dictionary,
}
use devxdao_m.Contract.Counts.{require_in_bounds}
use devxdao_m.Contract.Approve.{
  check_index, approve, put_operators, put_owned_operators, set_approval_for_all,
}
use devxdao_m.Contract.Query.{get_approved}
use devxdao_m.Ledger.Defs.{Ledger, deployed}
use devxdao_m.Ledger.Reads.{get_identifier_mode-deployed, get_number_of_minted_tokens-deployed}
use devxdao_m.Ledger.Writes.{get-as_is}
use devxdao_m.Ledger.Approve.{
  Approves, approve-Approves, ApprovesAll, set_approval_for_all-ApprovesAll,
}
use devxdao_m.Rights.Plan.{require_unburnt-deployed}

-- The bounds check of `approve` is that of `get_approved`.
check_index-in_bounds :
    (e : Env) (mode : NftIdentifierMode) (t : TokenIdentifier) (n : ℕ)
    → get_token_identifier_from_runtime_args e mode ≡ ok t
    → check_index mode t n ≡ ok tt
    → require_in_bounds mode t n ≡ ok tt
unfolding get_token_identifier_from_runtime_args check_index require_in_bounds
check_index-in_bounds e NftIdentifierMode.ordinal (TokenIdentifier.index i) n g p = p
check_index-in_bounds e NftIdentifierMode.ordinal (TokenIdentifier.hash a) n g p = ground arith
check_index-in_bounds e NftIdentifierMode.hash t n g p = refl

-- After an approval that succeeds, `get_approved` with the same arguments answers with its operator.
pub approve-get_approved :
    (e : Env) (d : Ledger) {s' : State}
    → approve e (deployed d) ≡ ok s'
    → (operator : Key) × (e.arg_key arg_operator ≡ Arg.given operator)
      × (get_approved e s' ≡ ok (some operator))
unfolding get_approved
approve-get_approved e d {s'} p =
    let a : Approves e d s' = approve-Approves e d p in
    let d' : Ledger = record d {
      operator = dictionary_put d.operator (get_dictionary_item_key a.token) (some a.operator);
    } in
    (
      a.operator,
      a.operator_given,
      rw a.result (
          rw (get_identifier_mode-deployed d', a.named, get_number_of_minted_tokens-deployed d')
            (rw
              (check_index-in_bounds e d.identifier_mode a.token d.number_of_minted_tokens a.named
                a.in_bounds)
              (rw
                (
                  require_unburnt-deployed d' a.token a.unburnt,
                  get-as_is d'.operator (get_dictionary_item_key a.token),
                )
                (rw (
                  dictionary_put_self d.operator (get_dictionary_item_key a.token)
                    (some a.operator)))))),
    )

-- Whether a list holds a token with an item key.
abbrev pub lists_key : List TokenIdentifier → Text → Bool
lists_key l j = any (λ t. text_eq (get_dictionary_item_key t) j) l

pub put_operators_lem :
    (l : List TokenIdentifier) (approved : Dict (Option Key)) (v : Option Key) (j : Text)
    → put_operators approved l v j ≡ (if lists_key l j then some v else approved j)
unfolding put_operators dictionary_put
put_operators_lem [] approved v j = refl
put_operators_lem (t ∷ l) approved v j =
    ground (arith, put_operators_lem l (dictionary_put approved (get_dictionary_item_key t) v) v j)

put_owned_operators_lem :
    (o : Option (List TokenIdentifier)) (l : List TokenIdentifier) (approved : Dict (Option Key))
    (v : Option Key) (j : Text)
    → o ≡ some l
    → put_owned_operators approved o v j ≡ (if lists_key l j then some v else approved j)
put_owned_operators_lem none l approved v j e = cc
put_owned_operators_lem (some l') l approved v j e =
    put_operators_lem l' approved v j
    ∙ ap (λ o. if lists_key (unwrap_or o []) j then some v else approved j) e

-- `set_approval_for_all` gives every token that the caller's list holds the operator of the call, or
-- withdraws its operator, as the call says; the operators of all other tokens stay.
pub set_approval_for_all_effect :
    (h : Host) (e : Env) (d : Ledger) (caller : Key) (l : List TokenIdentifier) {item_key : Text}
    {s' : State}
    → set_approval_for_all h e (deployed d) ≡ ok s'
    → get_verified_caller e (deployed d) ≡ ok caller
    → get_owned_tokens_dictionary_item_key h caller ≡ ok item_key
    → get_token_identifiers_from_dictionary d.identifier_mode (stored_dict d.owned_tokens) item_key
      ≡ ok (some l)
    → (d' : Ledger) × (approve_all : Bool) × (operator : Key) × (s' ≡ deployed d')
      × (e.arg_bool arg_approve_all ≡ Arg.given approve_all)
      × (e.arg_key arg_operator ≡ Arg.given operator)
      × ((j : Text)
          → d'.operator j ≡ (
              if lists_key l j
              then some (if approve_all then some operator else none)
              else d.operator j))
set_approval_for_all_effect h e d caller l {item_key} {s'} p by keyed listed =
    let a : ApprovesAll h e d s' = set_approval_for_all-ApprovesAll h e d p in
    let same = ok_unique (get_verified_caller e (deployed d)) by a.by in
    let same_key =
      ok_unique (get_owned_tokens_dictionary_item_key h caller) keyed (rw (← same) at a.keyed) in
    let same_list =
      ok_unique
        (get_token_identifiers_from_dictionary d.identifier_mode (stored_dict d.owned_tokens)
          item_key)
        (rw (← same_key) at a.listed) listed in
    let v : Option Key = if a.approve_all then some a.operator else none in
    (
      record d { operator = put_owned_operators d.operator a.owned_tokens v },
      a.approve_all,
      a.operator,
      a.result,
      a.approve_all_given,
      a.operator_given,
      λ j. put_owned_operators_lem a.owned_tokens l d.operator v j same_list,
    )
