-- ===== src/Ledger/Describe.antt =====
-- What a metadata update that succeeds (casper/contract/src/main.rs, `set_token_metadata`) has checked
-- and written.
use devxdao_m.Common.{◌≡◌, refl, sym, ◌∙◌, not, some, arith}
use devxdao_m.Common.Text.{Text}
use devxdao_m.Runtime.{
  Key, key_eq, key_eq→eq, Host, Env, Arg, DictCell, ok, >>=-elim, ok-injective, ok_unique,
  revert_if, revert_if-eq-ok, unwrap_or_revert_with,
}
use devxdao_m.Contract.Constants.{arg_token_meta_data}
use devxdao_m.Contract.Error.{
  invalid_token_identifier, invalid_token_owner, missing_token_meta_data, invalid_token_meta_data,
}
use devxdao_m.Contract.Modes.{NftMetadataKind, MetadataMutability}
use devxdao_m.Contract.State.{State}
use devxdao_m.Contract.Utils.Args.{get_required_arg}
use devxdao_m.Contract.Utils.Reads.{upsert_dictionary_value_from_key, as_is}
use devxdao_m.Contract.Utils.Caller.{get_verified_caller, enforce_only_contract_creator_can_invoke}
use devxdao_m.Contract.Utils.Tokens.{
  TokenIdentifier, get_dictionary_item_key, get_token_identifier_from_runtime_args,
}
use devxdao_m.Contract.Utils.Metadata.{
  validate_metadata, metadata_dictionary, set_metadata_dictionary,
}
use devxdao_m.Contract.Query.{require_mutable, set_token_metadata}
use devxdao_m.Ledger.Defs.{Ledger, deployed}
use devxdao_m.Ledger.Modes.{metadata_mutability_try_from-as_u8}
use devxdao_m.Ledger.Reads.{get_identifier_mode-deployed, get_metadata_kind-deployed}
use devxdao_m.Ledger.Writes.{get-as_is, upsert-as_is, unwrap_or_revert_with-eq-ok}
use devxdao_m.Ledger.Checks.{enforce_only_contract_creator_can_invoke-eq-ok}
use devxdao_m.Ledger.Transfer.{get_required_arg-eq-ok}
use devxdao_m.Ledger.Mint.{is_cep78, is_nft721, is_raw, is_custom, put_if}

-- The ledger with one entry of the dictionary of the kind given anew.
abbrev pub described : Ledger → TokenIdentifier → NftMetadataKind → Text → Ledger
described d t kind metadata = record d {
  metadata_cep78 = put_if (is_cep78 kind) d.metadata_cep78 (get_dictionary_item_key t) metadata;
  metadata_nft721 = put_if (is_nft721 kind) d.metadata_nft721 (get_dictionary_item_key t) metadata;
  metadata_raw = put_if (is_raw kind) d.metadata_raw (get_dictionary_item_key t) metadata;
  metadata_custom_validated =
      put_if (is_custom kind) d.metadata_custom_validated (get_dictionary_item_key t) metadata;
}

written_metadata :
    (kind : NftMetadataKind) (t : TokenIdentifier) (metadata : Text) (d : Ledger)
    {c : DictCell Text}
    → upsert_dictionary_value_from_key as_is
        (metadata_dictionary kind (deployed d))
        (get_dictionary_item_key t)
        metadata
      ≡ ok c
    → set_metadata_dictionary kind c (deployed d) ≡ deployed (described d t kind metadata)
written_metadata NftMetadataKind.cep78 t metadata d p =
    rw (← ok_unique _ (upsert-as_is d.metadata_cep78 (get_dictionary_item_key t) metadata) p)
written_metadata NftMetadataKind.nft721 t metadata d p =
    rw (← ok_unique _ (upsert-as_is d.metadata_nft721 (get_dictionary_item_key t) metadata) p)
written_metadata NftMetadataKind.raw t metadata d p =
    rw (← ok_unique _ (upsert-as_is d.metadata_raw (get_dictionary_item_key t) metadata) p)
written_metadata NftMetadataKind.custom_validated t metadata d p =
    rw
      (← ok_unique _ (upsert-as_is d.metadata_custom_validated (get_dictionary_item_key t) metadata)
        p)

require_mutable-eq-ok :
    (m : MetadataMutability) {u : Unit {0}}
    → require_mutable m ≡ ok u
    → m ≡ MetadataMutability.mutable
unfolding require_mutable
require_mutable-eq-ok MetadataMutability.immutable p = cc
require_mutable-eq-ok MetadataMutability.mutable p = refl

pub record Describes (h : Host) (e : Env) (d : Ledger) (s' : State) : Type 0 where
  pub token : TokenIdentifier
  pub owner : Key
  pub given_metadata : Text
  pub metadata : Text
  pub by_installer : e.caller ≡ d.installer
  pub mutable : d.metadata_mutability ≡ MetadataMutability.mutable
  pub named : get_token_identifier_from_runtime_args e d.identifier_mode ≡ ok token
  pub owned : d.token_owners (get_dictionary_item_key token) ≡ some owner
  pub by_owner : get_verified_caller e (deployed d) ≡ ok owner
  pub metadata_given : e.arg_text arg_token_meta_data ≡ Arg.given given_metadata
  pub valid : validate_metadata h (deployed d) d.nft_metadata_kind given_metadata ≡ ok metadata
  pub result : s' ≡ deployed (described d token d.nft_metadata_kind metadata)

pub set_token_metadata-Describes :
    (h : Host) (e : Env) (d : Ledger) {s' : State}
    → set_token_metadata h e (deployed d) ≡ ok s'
    → Describes h e d s'
unfolding set_token_metadata
set_token_metadata-Describes h e d p0 =
    >>=-elim (enforce_only_contract_creator_can_invoke e (deployed d)) _ p0 λ u1 q1 p1.
      let p2 = rw (metadata_mutability_try_from-as_u8 d.metadata_mutability) at p1 in
      >>=-elim (require_mutable d.metadata_mutability) _ p2 λ u3 q3 p3.
        let p4 = rw (get_identifier_mode-deployed d) at p3 in
        >>=-elim (get_token_identifier_from_runtime_args e d.identifier_mode) _ p4 λ t q5 p5.
          let p6 = rw (get-as_is d.token_owners (get_dictionary_item_key t)) at p5 in
          >>=-elim
            (unwrap_or_revert_with (d.token_owners (get_dictionary_item_key t))
              invalid_token_identifier)
            _ p6
            λ owner q7 p7. >>=-elim (get_verified_caller e (deployed d)) _ p7 λ caller q8 p8.
              >>=-elim (revert_if (not (key_eq caller owner)) invalid_token_owner) _ p8 λ u9 q9 p9.
                let p10 = rw (get_metadata_kind-deployed d) at p9 in
                >>=-elim
                  (get_required_arg (e.arg_text arg_token_meta_data) missing_token_meta_data
                    invalid_token_meta_data)
                  _ p10
                  λ given q11 p11.
                    >>=-elim (validate_metadata h (deployed d) d.nft_metadata_kind given) _ p11
                      λ m q12 p12.
                        >>=-elim
                          (upsert_dictionary_value_from_key as_is
                            (metadata_dictionary d.nft_metadata_kind (deployed d))
                            (get_dictionary_item_key t) m)
                          _ p12
                          λ c q13 p13.
                            let same : caller ≡ owner = ground (
                              arith,
                              key_eq→eq caller owner,
                              revert_if-eq-ok (not (key_eq caller owner)) invalid_token_owner q9,
                            ) in
                            record {
                              token = t;
                              owner = owner;
                              given_metadata = given;
                              metadata = m;
                              by_installer = enforce_only_contract_creator_can_invoke-eq-ok d e q1;
                              mutable = require_mutable-eq-ok d.metadata_mutability q3;
                              named = q5;
                              owned =
                                  unwrap_or_revert_with-eq-ok
                                    (d.token_owners (get_dictionary_item_key t))
                                    invalid_token_identifier q7;
                              by_owner = rw same at q8;
                              metadata_given =
                                  get_required_arg-eq-ok (e.arg_text arg_token_meta_data)
                                    missing_token_meta_data invalid_token_meta_data q11;
                              valid = q12;
                              result =
                                  sym (ok-injective p13)
                                  ∙ written_metadata d.nft_metadata_kind t m d q13;
                            }
