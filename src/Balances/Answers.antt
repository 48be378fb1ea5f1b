-- ===== src/Balances/Answers.antt =====
-- What `balance_of` and `owner_of` answer (casper/contract/src/main.rs) where the books are consistent.
use devxdao_m.Common.{ℕ, ◌<◌, ◌≡◌, some, arith, inl, inr, Option-cases}
use devxdao_m.Common.Text.{Text}
use devxdao_m.Common.Decimal.{to_string}
use devxdao_m.Runtime.{Key, Host, Env, Arg, ok}
use devxdao_m.Contract.Constants.{arg_token_owner, arg_token_id}
use devxdao_m.Contract.Utils.Tokens.{
  get_owned_tokens_dictionary_item_key, get_token_identifier_from_runtime_args,
}
use devxdao_m.Contract.Counts.{require_in_bounds}
use devxdao_m.Contract.Query.{balance_of, owner_of}
use devxdao_m.Ledger.Defs.{Ledger, deployed}
use devxdao_m.Contract.Utils.Reads.{get_number_of_minted_tokens}
use devxdao_m.Ledger.Reads.{get_identifier_mode-deployed}
use devxdao_m.Balances.Defs.{IsConsistent, holding}

-- Where the books are consistent, `balance_of` answers with the number of tokens below the number of
-- minted ones whose owner has the argument's item key and which are not burnt.
pub balance_of-holding :
    (h : Host) (e : Env) (d : Ledger) (key : Key) {item_key : Text}
    → IsConsistent h d
    → e.arg_key arg_token_owner ≡ Arg.given key
    → get_owned_tokens_dictionary_item_key h key ≡ ok item_key
    → balance_of h e (deployed d) ≡ ok (holding h d item_key)
unfolding balance_of
balance_of-holding h e d key {item_key} c given keyed =
    rw (given, keyed) (ground (arith, c.balances item_key))

-- Where the books are consistent, `owner_of` answers for every index below the number of minted
-- tokens, with the owner on record.
pub owner_of-total :
    (h : Host) (e : Env) (d : Ledger) (i : ℕ)
    → IsConsistent h d
    → e.arg_u64 arg_token_id ≡ Arg.given i
    → i < d.number_of_minted_tokens
    → (key : Key) × (d.token_owners (to_string i) ≡ some key) × (owner_of e (deployed d) ≡ ok key)
unfolding owner_of get_token_identifier_from_runtime_args require_in_bounds
    get_number_of_minted_tokens
owner_of-total h e d i c given lt = elim (Option-cases (d.token_owners (to_string i))) [
  | inl none_there ↦ ground (arith, c.minted_owner i lt)
  | inr (key, there) ↦
      (key, there, rw (get_identifier_mode-deployed d, c.ordinal, given) (ground arith))
]
