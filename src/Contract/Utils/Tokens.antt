-- ===== src/Contract/Utils/Tokens.antt =====
-- Token identifiers, the item keys of the dictionaries, and the lists of owned tokens
-- (casper/contract/src/utils.rs).
use devxdao_m.Common.{ℕ, Bool, false, Option, none, some, List, [], ◌∷◌, map, ◌==◌}
use mathlib.Core.Option
use devxdao_m.Common.Text.{Text, text_eq}
use devxdao_m.Common.Decimal.{to_string}
use devxdao_m.Runtime.{Key, Host, Env, DictCell, ApiError, Result, ok, revert, ◌>>=◌}
use devxdao_m.Contract.Constants.{arg_token_id, arg_token_hash}
use devxdao_m.Contract.Error.{
  invalid_key, missing_token_id, invalid_token_identifier, invalid_identifier_mode,
}
use devxdao_m.Contract.Modes.{NftIdentifierMode}
use devxdao_m.Contract.State.{OwnedTokens}
use devxdao_m.Contract.Utils.Reads.{get_dictionary_value_from_key, upsert_dictionary_value_from_key}
use devxdao_m.Contract.Utils.Args.{get_required_arg}

pub data TokenIdentifier : Type 0 where
  index : ℕ → TokenIdentifier
  hash : Text → TokenIdentifier

-- the derived `PartialEq`
abbrev pub token_identifier_eq : TokenIdentifier → TokenIdentifier → Bool
token_identifier_eq (TokenIdentifier.index i) (TokenIdentifier.index j) = i == j
token_identifier_eq (TokenIdentifier.hash a) (TokenIdentifier.hash b) = text_eq a b
token_identifier_eq _ _ = false

abbrev pub get_index : TokenIdentifier → Option ℕ
get_index (TokenIdentifier.index i) = some i
get_index (TokenIdentifier.hash a) = none

abbrev pub get_hash : TokenIdentifier → Option Text
get_hash (TokenIdentifier.index i) = none
get_hash (TokenIdentifier.hash a) = some a

abbrev pub get_dictionary_item_key : TokenIdentifier → Text
get_dictionary_item_key (TokenIdentifier.index i) = to_string i
get_dictionary_item_key (TokenIdentifier.hash a) = a

abbrev pub get_owned_tokens_dictionary_item_key : Host → Key → Result Text
get_owned_tokens_dictionary_item_key h (Key.account a) = ok (h.account_hash_to_string a)
get_owned_tokens_dictionary_item_key h (Key.hash c) = ok (h.contract_hash_to_string c)
get_owned_tokens_dictionary_item_key h (Key.other k) = revert (ApiError.user invalid_key)

unfoldable pub get_token_identifier_from_runtime_args :
    Env → NftIdentifierMode → Result TokenIdentifier
get_token_identifier_from_runtime_args e NftIdentifierMode.ordinal = do
  i ← get_required_arg (e.arg_u64 arg_token_id) missing_token_id invalid_token_identifier
  ok (TokenIdentifier.index i)
get_token_identifier_from_runtime_args e NftIdentifierMode.hash = do
  a ← get_required_arg (e.arg_text arg_token_hash) missing_token_id invalid_token_identifier
  ok (TokenIdentifier.hash a)

-- An entry of OWNED_TOKENS read as `Vec<u64>` or as `Vec<String>`.
abbrev pub as_indices : OwnedTokens → Option (List ℕ)
as_indices (OwnedTokens.indices l) = some l
as_indices (OwnedTokens.hashes l) = none

abbrev pub as_hashes : OwnedTokens → Option (List Text)
as_hashes (OwnedTokens.indices l) = none
as_hashes (OwnedTokens.hashes l) = some l

unfoldable pub get_token_identifiers_from_dictionary :
    NftIdentifierMode → DictCell OwnedTokens → Text → Result (Option (List TokenIdentifier))
get_token_identifiers_from_dictionary NftIdentifierMode.ordinal cell owners_item_key = do
  token_indices ← get_dictionary_value_from_key as_indices cell owners_item_key
  ok (Option.map (map TokenIdentifier.index) token_indices)
get_token_identifiers_from_dictionary NftIdentifierMode.hash cell owners_item_key = do
  token_hashes ← get_dictionary_value_from_key as_hashes cell owners_item_key
  ok (Option.map (map TokenIdentifier.hash) token_hashes)

-- `into_iter().map(f.unwrap_or_revert()).collect()`; `error` is what a `None` reverts with
unfoldable pub collect_or_revert :
    {A B : Type 0} → (A → Option B) → ApiError → List A → Result (List B)
collect_or_revert f error [] = ok []
collect_or_revert f error (a ∷ rest) = do
  b ← elim (f a) [ none ↦ revert error | some b ↦ ok b ]
  bs ← collect_or_revert f error rest
  ok (b ∷ bs)

-- The list written back at its type; `mint` and `upsert_token_identifiers` differ in the error.
unfoldable pub write_token_identifiers :
    ApiError
    → NftIdentifierMode
    → DictCell OwnedTokens
    → Text
    → List TokenIdentifier
    → Result (DictCell OwnedTokens)
write_token_identifiers error NftIdentifierMode.ordinal cell owners_item_key token_identifiers = do
  token_indices ← collect_or_revert get_index error token_identifiers
  upsert_dictionary_value_from_key as_indices cell owners_item_key
      (OwnedTokens.indices token_indices)
write_token_identifiers error NftIdentifierMode.hash cell owners_item_key token_identifiers = do
  token_hashes ← collect_or_revert get_hash error token_identifiers
  upsert_dictionary_value_from_key as_hashes cell owners_item_key (OwnedTokens.hashes token_hashes)

unfoldable pub upsert_token_identifiers :
    NftIdentifierMode
    → DictCell OwnedTokens
    → Text
    → List TokenIdentifier
    → Result (DictCell OwnedTokens)
unfolding write_token_identifiers
upsert_token_identifiers = write_token_identifiers (ApiError.user invalid_identifier_mode)
