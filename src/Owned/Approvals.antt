-- ===== src/Owned/Approvals.antt =====
-- `set_approval_for_all` where the lists of owned tokens agree with the owners
-- (casper/contract/src/main.rs): which tokens it gives an operator.
use devxdao_m.Common.{
  ℕ, ◌<◌, ◌≡◌, refl, sym, ap, ◌∙◌, Bool, true, false, Option, none, some, List, [], ◌∷◌, arith, inl,
  inr, ◌==◌, Bool-cases, if◌then◌else◌, unwrap_or, ==_iff,
}
use devxdao_m.Common.Text.{Text, text_eq, text_eq_refl}
use devxdao_m.Common.Decimal.{to_string, text_eq-to_string_ne}
use devxdao_m.Common.Count.{bit}
use devxdao_m.Runtime.{Key, Host, Env, Arg, Dict, stored_dict, Result, ok, ok_unique}
use devxdao_m.Contract.Constants.{arg_token_id, arg_operator, arg_approve_all}
use devxdao_m.Contract.Modes.{NftIdentifierMode}
use devxdao_m.Contract.State.{State, OwnedTokens}
use devxdao_m.Contract.Utils.Reads.{get_number_of_minted_tokens}
use devxdao_m.Contract.Utils.Caller.{get_verified_caller}
use devxdao_m.Contract.Utils.Tokens.{
  get_owned_tokens_dictionary_item_key, get_token_identifier_from_runtime_args,
  get_token_identifiers_from_dictionary,
}
use devxdao_m.Contract.Counts.{require_in_bounds, require_unburnt}
use devxdao_m.Contract.Approve.{put_owned_operators, set_approval_for_all}
use devxdao_m.Contract.Query.{get_approved}
use devxdao_m.Ledger.Defs.{Ledger, deployed}
use devxdao_m.Ledger.Reads.{get_identifier_mode-deployed}
use devxdao_m.Ledger.Approve.{ApprovesAll, set_approval_for_all-ApprovesAll}
use devxdao_m.Owned.Occurrences.{occurrences, as_tokens}
use devxdao_m.Owned.Defs.{listed_indices, is_held, IsKept}
use devxdao_m.Owned.Updates.{as_read, get-indices}
use devxdao_m.Rights.Approve.{lists_key, put_operators_lem}

text_eq-to_string : (i j : ℕ) → text_eq (to_string i) (to_string j) ≡ (i == j)
text_eq-to_string i j = elim (Bool-cases (i == j)) [
  | inl same ↦ rw same (rw ((==_iff i j).0 same) (text_eq_refl (to_string j)))
  | inr differ ↦ rw differ (text_eq-to_string_ne i j (λ e. ground (arith, ==_iff i j)))
]

-- A list of indices holds a token's item key if and only if the index stands in it.
lists_key-as_tokens :
    (l : List ℕ) (i : ℕ) (b : Bool)
    → occurrences i l ≡ bit b
    → lists_key (as_tokens l) (to_string i) ≡ b
unfolding occurrences
lists_key-as_tokens [] i b count = ground arith
lists_key-as_tokens (x ∷ l) i b count = elim (Bool-cases (x == i)) [
  | inl here ↦ rw (text_eq-to_string x i) (rw here (ground arith))
  | inr there ↦ rw (text_eq-to_string x i) (rw there (lists_key-as_tokens l i b (ground arith)))
]

-- The dictionary of operators after the loop over an entry of OWNED_TOKENS.
put_owned-as_read :
    (entry : Option OwnedTokens) (l : List ℕ) (approved : Dict (Option Key)) (v : Option Key)
    (j : Text)
    → listed_indices entry ≡ some l
    → put_owned_operators approved (as_read entry) v j
      ≡ (if lists_key (as_tokens l) j then some v else approved j)
put_owned-as_read none l approved v j listed = ground arith
put_owned-as_read (some (OwnedTokens.indices x)) l approved v j listed =
    put_operators_lem (as_tokens x) approved v j
    ∙ ap
        (λ (t : Option (List ℕ)).
          if lists_key (as_tokens (unwrap_or t [])) j then some v else approved j)
        listed
put_owned-as_read (some (OwnedTokens.hashes x)) l approved v j listed = cc

-- The operators after `set_approval_for_all`, at an index.
pub operators_after_all :
    (h : Host) (e : Env) (d : Ledger) (v : Option Key) (i : ℕ) {s' : State}
    → IsKept h d
    → (a : ApprovesAll h e d s')
    → put_owned_operators d.operator a.owned_tokens v (to_string i)
      ≡ (if is_held h d a.item_key i then some v else d.operator (to_string i))
operators_after_all h e d v i kept a =
    let (l, listed, counted) = kept.1 a.item_key in
    let same_list =
      ok_unique
        (get_token_identifiers_from_dictionary d.identifier_mode (stored_dict d.owned_tokens)
          a.item_key)
        a.listed
        (rw (sym kept.0.ordinal) at (get-indices d.owned_tokens a.item_key l _ refl listed)) in
    ap (λ o. put_owned_operators d.operator o v (to_string i)) same_list
    ∙ put_owned-as_read (d.owned_tokens a.item_key) l d.operator v (to_string i) listed
    ∙ ap (λ (b : Bool). if b then some v else d.operator (to_string i))
        (lists_key-as_tokens l i (is_held h d a.item_key i) (counted i))

-- What `get_approved` answers for a minted token that is not burnt.
pub get_approved-deployed :
    (e : Env) (d : Ledger) (i : ℕ)
    → d.identifier_mode ≡ NftIdentifierMode.ordinal
    → e.arg_u64 arg_token_id ≡ Arg.given i
    → i < d.number_of_minted_tokens
    → d.burnt_tokens (to_string i) ≡ none
    → get_approved e (deployed d) ≡ ok (unwrap_or (d.operator (to_string i)) none)
unfolding get_approved get_token_identifier_from_runtime_args require_in_bounds
    get_number_of_minted_tokens require_unburnt
get_approved-deployed e d i ordinal given lt unburnt =
    rw (get_identifier_mode-deployed d, ordinal, given) (ground arith)

answer_if :
    (held : Bool) (v : Option Key) (now before : Option (Option Key)) (answer : Result (Option Key))
    → now ≡ (if held then some v else before)
    → answer ≡ ok (unwrap_or before none)
    → ok (unwrap_or now none) ≡ (if held then ok v else answer)
answer_if true v now before answer p q = ap (λ o. ok (unwrap_or o none)) p
answer_if false v now before answer p q = ap (λ o. ok (unwrap_or o none)) p ∙ sym q

-- Where the books are consistent and the lists agree with the owners, `set_approval_for_all` by a caller
-- with some item key decides what `get_approved` then answers for every minted token that is not burnt:
-- for those whose owner has the item key the operator of the call, or none, as the call says, and for all
-- others what it answered before.
pub set_approval_for_all-get_approved :
    (h : Host) (e e' : Env) (d : Ledger) (caller : Key) (i : ℕ) {item_key : Text} {s' : State}
    → IsKept h d
    → set_approval_for_all h e (deployed d) ≡ ok s'
    → get_verified_caller e (deployed d) ≡ ok caller
    → get_owned_tokens_dictionary_item_key h caller ≡ ok item_key
    → e'.arg_u64 arg_token_id ≡ Arg.given i
    → i < d.number_of_minted_tokens
    → d.burnt_tokens (to_string i) ≡ none
    → (approve_all : Bool) × (operator : Key) × (e.arg_bool arg_approve_all ≡ Arg.given approve_all)
      × (e.arg_key arg_operator ≡ Arg.given operator)
      × (get_approved e' s' ≡ (
          if is_held h d item_key i
          then ok (if approve_all then some operator else none)
          else get_approved e' (deployed d)))
set_approval_for_all-get_approved h e e' d caller i {item_key} {s'} kept p by keyed given lt
      unburnt =
    let a : ApprovesAll h e d s' = set_approval_for_all-ApprovesAll h e d p in
    let same = ok_unique (get_verified_caller e (deployed d)) by a.by in
    let same_key =
      ok_unique (get_owned_tokens_dictionary_item_key h caller) (rw (← same) at a.keyed) keyed in
    let v : Option Key = if a.approve_all then some a.operator else none in
    let d' : Ledger = record d { operator = put_owned_operators d.operator a.owned_tokens v } in
    let written =
      operators_after_all h e d v i kept a
      ∙ ap (λ k. if is_held h d k i then some v else d.operator (to_string i)) same_key in
    (
      a.approve_all,
      a.operator,
      a.approve_all_given,
      a.operator_given,
      ap (get_approved e') a.result
          ∙ get_approved-deployed e' d' i kept.0.ordinal given lt unburnt
          ∙ answer_if (is_held h d item_key i) v _ (d.operator (to_string i)) _ written
              (get_approved-deployed e' d i kept.0.ordinal given lt unburnt),
    )
