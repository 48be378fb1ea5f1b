-- ===== src/Owned/Updates.antt =====
-- The updates of OWNED_TOKENS in ordinal mode (casper/contract/src/main.rs, `mint` and `transfer`), on
-- an entry that holds a list.
use devxdao_m.Common.{ℕ, ◌<◌, ◌≡◌, refl, ap, Option, none, some, List, push, arith}
use devxdao_m.Common.Text.{Text}
use devxdao_m.Runtime.{Dict, dictionary_put, stored_dict, ApiError, ok}
use devxdao_m.Contract.Error.{invalid_identifier_mode}
use devxdao_m.Contract.Modes.{NftIdentifierMode}
use devxdao_m.Contract.State.{OwnedTokens}
use devxdao_m.Contract.Utils.Tokens.{
  TokenIdentifier, as_indices, get_token_identifiers_from_dictionary, write_token_identifiers,
  upsert_token_identifiers,
}
use devxdao_m.Contract.Utils.Reads.{upsert_dictionary_value_from_key}
use devxdao_m.Contract.Mint.{append_token, add_owned_token}
use devxdao_m.Contract.Transfer.{remove_owned_token, receive_token, receive_owned_token}
use devxdao_m.Owned.Occurrences.{
  occurrences, without, as_tokens, any-as_tokens, position-as_tokens, as_tokens-push,
  collect-as_tokens,
}
use devxdao_m.Owned.Defs.{listed_indices}

upsert-indices :
    (d : Dict OwnedTokens) (k : Text) (l : List ℕ) (v : OwnedTokens) (entry : Option OwnedTokens)
    → d k ≡ entry
    → listed_indices entry ≡ some l
    → upsert_dictionary_value_from_key as_indices (stored_dict d) k v
      ≡ ok (stored_dict (dictionary_put d k v))
upsert-indices d k l v none there e = ground arith
upsert-indices d k l v (some (OwnedTokens.indices x)) there e = ground arith
upsert-indices d k l v (some (OwnedTokens.hashes x)) there e = cc

-- An entry with a list can be written over.
write-indices :
    (error : ApiError) (d : Dict OwnedTokens) (k : Text) (l l' : List ℕ)
    → listed_indices (d k) ≡ some l
    → write_token_identifiers error NftIdentifierMode.ordinal (stored_dict d) k (as_tokens l')
      ≡ ok (stored_dict (dictionary_put d k (OwnedTokens.indices l')))
unfolding write_token_identifiers
write-indices error d k l l' e =
    rw (collect-as_tokens error l') (upsert-indices d k l (OwnedTokens.indices l') (d k) refl e)

-- What is read of an entry with a list.
abbrev pub as_read : Option OwnedTokens → Option (List TokenIdentifier)
as_read none = none
as_read (some (OwnedTokens.indices l)) = some (as_tokens l)
as_read (some (OwnedTokens.hashes l)) = none

pub get-indices :
    (d : Dict OwnedTokens) (k : Text) (l : List ℕ) (entry : Option OwnedTokens)
    → d k ≡ entry
    → listed_indices entry ≡ some l
    → get_token_identifiers_from_dictionary NftIdentifierMode.ordinal (stored_dict d) k
      ≡ ok (as_read entry)
unfolding get_token_identifiers_from_dictionary
get-indices d k l none there e = ground arith
get-indices d k l (some (OwnedTokens.indices x)) there e = ground arith
get-indices d k l (some (OwnedTokens.hashes x)) there e = cc

module _ (i : ℕ) (l : List ℕ) where
  append_token-indices :
      (entry : Option OwnedTokens)
      → listed_indices entry ≡ some l
      → occurrences i l ≡ 0
      → append_token (as_read entry) (TokenIdentifier.index i) ≡ ok (as_tokens (push l i))
  unfolding append_token
  append_token-indices none e absent = ground arith
  append_token-indices (some (OwnedTokens.indices x)) e absent =
      let same : x ≡ l = ground arith in
      rw (same, any-as_tokens i l absent) (ap ok (as_tokens-push l i))
  append_token-indices (some (OwnedTokens.hashes x)) e absent = cc

  receive_token-indices :
      (entry : Option OwnedTokens)
      → listed_indices entry ≡ some l
      → occurrences i l ≡ 0
      → receive_token (as_read entry) (TokenIdentifier.index i) ≡ ok (as_tokens (push l i))
  unfolding receive_token
  receive_token-indices none e absent = ground arith
  receive_token-indices (some (OwnedTokens.indices x)) e absent =
      let same : x ≡ l = ground arith in
      rw (same, any-as_tokens i l absent) (ap ok (as_tokens-push l i))
  receive_token-indices (some (OwnedTokens.hashes x)) e absent = cc

  read_owned :
      (entry : Option OwnedTokens)
      → listed_indices entry ≡ some l
      → 0 < occurrences i l
      → as_read entry ≡ some (as_tokens l)
  unfolding occurrences
  read_owned none e there = ground arith
  read_owned (some (OwnedTokens.indices x)) e there = ground arith
  read_owned (some (OwnedTokens.hashes x)) e there = cc

module _ (d : Dict OwnedTokens) (k : Text) (i : ℕ) (l : List ℕ) where
  pub add_owned_token-ordinal :
      listed_indices (d k) ≡ some l
      → occurrences i l ≡ 0
      → add_owned_token NftIdentifierMode.ordinal (stored_dict d) k (TokenIdentifier.index i)
        ≡ ok (stored_dict (dictionary_put d k (OwnedTokens.indices (push l i))))
  unfolding add_owned_token
  add_owned_token-ordinal e absent = rw (get-indices d k l (d k) refl e) (
      rw (append_token-indices i l (d k) e absent)
        (write-indices ApiError.no_value d k l (push l i) e))

  pub receive_owned_token-ordinal :
      listed_indices (d k) ≡ some l
      → occurrences i l ≡ 0
      → receive_owned_token NftIdentifierMode.ordinal (stored_dict d) k (TokenIdentifier.index i)
        ≡ ok (stored_dict (dictionary_put d k (OwnedTokens.indices (push l i))))
  unfolding receive_owned_token upsert_token_identifiers
  receive_owned_token-ordinal e absent = rw (get-indices d k l (d k) refl e) (
      rw (receive_token-indices i l (d k) e absent)
        (write-indices (ApiError.user invalid_identifier_mode) d k l (push l i) e))

  pub remove_owned_token-ordinal :
      listed_indices (d k) ≡ some l
      → 0 < occurrences i l
      → remove_owned_token NftIdentifierMode.ordinal (stored_dict d) k (TokenIdentifier.index i)
        ≡ ok (stored_dict (dictionary_put d k (OwnedTokens.indices (without i l))))
  unfolding remove_owned_token upsert_token_identifiers
  remove_owned_token-ordinal e there =
      let (n, found_at, removed) = position-as_tokens i l there in
      rw (get-indices d k l (d k) refl e) (
        rw (read_owned i l (d k) e there) (
          rw found_at (
            rw removed
              (write-indices (ApiError.user invalid_identifier_mode) d k l (without i l) e))))
