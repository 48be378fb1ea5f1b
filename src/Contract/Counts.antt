-- ===== src/Contract/Counts.antt =====
-- The updates that `mint`, `burn` and `transfer` share (casper/contract/src/main.rs): the token counts,
-- the ownership-mode check and the receipt's dictionary key.
use devxdao_m.Common.{
  ℕ, ◌+◌, ◌-◌, ◌%◌, ◌^◌, Bool, true, false, Option, none, some, ltb, leb, is_some,
}
use devxdao_m.Common.Text.{Text}
use devxdao_m.Runtime.{
  Key, Host, DictCell, ApiError, Result, ok, revert, ◌>>=◌, revert_if, some_or_revert,
}
use devxdao_m.Contract.Error.{
  fatal_token_id_duplication, invalid_ownership_mode, missing_owned_tokens, invalid_owned_tokens,
  previously_burnt_token, invalid_token_identifier,
}
use devxdao_m.Contract.Modes.{OwnershipMode, NftIdentifierMode}
use devxdao_m.Contract.State.{State}
use devxdao_m.Contract.Utils.Reads.{
  get_uref, get_ownership_mode, get_dictionary_value_from_key, upsert_dictionary_value_from_key,
  as_is,
}
use devxdao_m.Contract.Utils.Tokens.{TokenIdentifier, get_index, get_dictionary_item_key}

-- `balance + 1u64`, which wraps in a release build
abbrev pub next_count : Option ℕ → ℕ
next_count (some balance) = (balance + 1) % 2 ^ 64
next_count none = 1

unfoldable pub increment_count : DictCell ℕ → Text → Result (DictCell ℕ)
increment_count cell item_key = do
  balance ← get_dictionary_value_from_key as_is cell item_key
  upsert_dictionary_value_from_key as_is cell item_key (next_count balance)

abbrev pub previous_count : Option ℕ → Result ℕ
previous_count (some balance) = elim (ltb 0 balance) [
  | true ↦ ok (balance - 1)
  | false ↦ revert (ApiError.user fatal_token_id_duplication)
]
previous_count none = revert (ApiError.user fatal_token_id_duplication)

unfoldable pub decrement_count : DictCell ℕ → Text → Result (DictCell ℕ)
decrement_count cell item_key = do
  balance ← get_dictionary_value_from_key as_is cell item_key
  updated_balance ← previous_count balance
  upsert_dictionary_value_from_key as_is cell item_key updated_balance

-- The `match` on the ownership mode at the head of `approve`, `set_approval_for_all`, `transfer`.
abbrev pub is_transferable : OwnershipMode → Bool
is_transferable OwnershipMode.transferable = true
is_transferable _ = false

unfoldable pub require_transferable : State → Result (Unit {0})
require_transferable s = do
  mode ← get_ownership_mode s
  elim (is_transferable mode) [
    | true ↦ ok tt
    | false ↦ revert (ApiError.user invalid_ownership_mode)
  ]

unfoldable pub require_unburnt : State → TokenIdentifier → Result (Unit {0})
require_unburnt s token_identifier = do
  burnt ←
      get_dictionary_value_from_key as_is s.burnt_tokens (get_dictionary_item_key token_identifier)
  revert_if (is_some burnt) previously_burnt_token

-- In ordinal mode: revert if the identifier is no index below the number of minted tokens.
unfoldable pub require_in_bounds : NftIdentifierMode → TokenIdentifier → ℕ → Result (Unit {0})
require_in_bounds NftIdentifierMode.ordinal token_identifier number_of_minted_tokens = do
  index ← some_or_revert (get_index token_identifier)
  revert_if (leb number_of_minted_tokens index) invalid_token_identifier
require_in_bounds NftIdentifierMode.hash token_identifier number_of_minted_tokens = ok tt

-- `Key::dictionary(get_uref(OWNED_TOKENS, …), item_key)`
unfoldable pub owned_tokens_actual_key : Host → State → Text → Result Key
owned_tokens_actual_key h s item_key = do
  seed_uref ← get_uref s.owned_tokens missing_owned_tokens invalid_owned_tokens
  ok (Key.other (h.owned_tokens_address item_key))
