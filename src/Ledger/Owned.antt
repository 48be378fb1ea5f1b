-- ===== src/Ledger/Owned.antt =====
-- The updates of OWNED_TOKENS on an initialised instance.
use devxdao_m.Common.{◌≡◌, List, position, remove}
use devxdao_m.Common.Text.{Text}
use devxdao_m.Runtime.{
  Dict, DictCell, dictionary_put, stored_dict, ApiError, ok, >>=-eq-ok, unwrap_or_revert_with,
}
use devxdao_m.Contract.Error.{
  invalid_identifier_mode, invalid_token_identifier, invalid_token_owner,
}
use devxdao_m.Contract.Modes.{NftIdentifierMode}
use devxdao_m.Contract.State.{OwnedTokens}
use devxdao_m.Contract.Utils.Tokens.{
  TokenIdentifier, token_identifier_eq, get_index, get_hash, as_indices, as_hashes,
  collect_or_revert, get_token_identifiers_from_dictionary, write_token_identifiers,
  upsert_token_identifiers,
}
use devxdao_m.Contract.Mint.{append_token, add_owned_token}
use devxdao_m.Contract.Transfer.{remove_owned_token, receive_token, receive_owned_token}
use devxdao_m.Ledger.Writes.{upsert-eq-ok}

-- A cell that differs from a dictionary in one entry at most.
abbrev pub Writes : Dict OwnedTokens → Text → DictCell OwnedTokens → Type 0
Writes d k c = (x : OwnedTokens) × (c ≡ stored_dict (dictionary_put d k x))

pub write_token_identifiers-eq-ok :
    (error : ApiError) (mode : NftIdentifierMode) (d : Dict OwnedTokens) (k : Text)
    (l : List TokenIdentifier) {c : DictCell OwnedTokens}
    → write_token_identifiers error mode (stored_dict d) k l ≡ ok c
    → Writes d k c
unfolding write_token_identifiers
write_token_identifiers-eq-ok error NftIdentifierMode.ordinal d k l p =
    let (l', q, p') = >>=-eq-ok (collect_or_revert get_index error l) _ p in
    (OwnedTokens.indices l', upsert-eq-ok as_indices d k (OwnedTokens.indices l') p')
write_token_identifiers-eq-ok error NftIdentifierMode.hash d k l p =
    let (l', q, p') = >>=-eq-ok (collect_or_revert get_hash error l) _ p in
    (OwnedTokens.hashes l', upsert-eq-ok as_hashes d k (OwnedTokens.hashes l') p')

module _ (mode : NftIdentifierMode) (d : Dict OwnedTokens) (k : Text) (t : TokenIdentifier)
    {c : DictCell OwnedTokens} where
  pub add_owned_token-eq-ok : add_owned_token mode (stored_dict d) k t ≡ ok c → Writes d k c
  unfolding add_owned_token
  add_owned_token-eq-ok p0 =
      let (l, q1, p1) =
        >>=-eq-ok (get_token_identifiers_from_dictionary mode (stored_dict d) k) _ p0 in
      let (l', q2, p2) = >>=-eq-ok (append_token l t) _ p1 in
      write_token_identifiers-eq-ok ApiError.no_value mode d k l' p2

  pub remove_owned_token-eq-ok : remove_owned_token mode (stored_dict d) k t ≡ ok c → Writes d k c
  unfolding remove_owned_token upsert_token_identifiers
  remove_owned_token-eq-ok p0 =
      let (o, q1, p1) =
        >>=-eq-ok (get_token_identifiers_from_dictionary mode (stored_dict d) k) _ p0 in
      let (l, q2, p2) = >>=-eq-ok (unwrap_or_revert_with o invalid_token_identifier) _ p1 in
      let (i, q3, p3) =
        >>=-eq-ok
          (unwrap_or_revert_with (position (λ id. token_identifier_eq id t) l) invalid_token_owner)
          _ p2 in
      write_token_identifiers-eq-ok (ApiError.user invalid_identifier_mode) mode d k (remove i l) p3

  pub receive_owned_token-eq-ok : receive_owned_token mode (stored_dict d) k t ≡ ok c → Writes d k c
  unfolding receive_owned_token upsert_token_identifiers
  receive_owned_token-eq-ok p0 =
      let (o, q1, p1) =
        >>=-eq-ok (get_token_identifiers_from_dictionary mode (stored_dict d) k) _ p0 in
      let (l, q2, p2) = >>=-eq-ok (receive_token o t) _ p1 in
      write_token_identifiers-eq-ok (ApiError.user invalid_identifier_mode) mode d k l p2
