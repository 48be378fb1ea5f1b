-- ===== src/Contract/Utils/Metadata.antt =====
-- Metadata schemas and their check (casper/contract/src/utils.rs). The JSON codec is the host's.
use devxdao_m.Common.{
  Bool, true, false, ◌&&◌, not, Option, none, some, List, [], ◌∷◌, is_empty, is_some, if◌then◌else◌,
}
use devxdao_m.Common.Text.{Text, text_eq, codes}
use devxdao_m.Runtime.{
  Host, DictCell, MetadataSchemaProperty, CustomMetadataSchema, Result, ok, ◌>>=◌, ◌>>◌, revert_if,
  unwrap_or_revert_with,
}
use devxdao_m.Contract.Error.{
  missing_json_schema, invalid_json_schema, failed_to_parse_cep99_metadata,
  failed_to_parse_721_metadata, failed_to_parse_custom_metadata, invalid_cep99_metadata,
  invalid_nft721_metadata, invalid_custom_metadata, failed_to_jsonify_cep99_metadata,
  failed_to_jsonify_nft721_metadata, failed_to_jsonify_custom_metadata,
}
use devxdao_m.Contract.Modes.{NftMetadataKind}
use devxdao_m.Contract.State.{State}
use devxdao_m.Contract.Utils.Reads.{get_stored_value_with_user_errors}

abbrev property : Text → Text → Text × MetadataSchemaProperty
property key description = (key, record { name = key; description = description; required = true })

-- The properties stand in the order of their keys, as the `BTreeMap` keeps them.
unfoldable pub get_metadata_schema : Host → State → NftMetadataKind → Result CustomMetadataSchema
get_metadata_schema h s NftMetadataKind.raw = ok (record { properties = [] })
get_metadata_schema h s NftMetadataKind.nft721 = ok (record {
  properties =
      property (codes "name") (codes "The name of the NFT")
      ∷ property (codes "symbol") (codes "The symbol of the NFT collection")
      ∷ property (codes "token_uri") (codes "The URI pointing to an off chain resource")
      ∷ [];
})
get_metadata_schema h s NftMetadataKind.cep78 = ok (record {
  properties =
      property (codes "checksum") (codes "A SHA256 hash of the content at the token_uri")
      ∷ property (codes "name") (codes "The name of the NFT")
      ∷ property (codes "token_uri") (codes "The URI pointing to an off chain resource")
      ∷ [];
})
get_metadata_schema h s NftMetadataKind.custom_validated = do
  custom_schema_json ←
      get_stored_value_with_user_errors s.json_schema missing_json_schema invalid_json_schema
  unwrap_or_revert_with (h.parse_schema custom_schema_json) invalid_json_schema

-- `BTreeMap::get`
unfoldable pub get : {A : Type 0} → Text → List (Text × A) → Option A
get key [] = none
get key ((k, a) ∷ m) = if text_eq k key then some a else get key m

-- `if let Some(property) = properties.get(key) { if property.required && value.is_empty() { … } }`
abbrev pub is_missing_required : CustomMetadataSchema → Text → Text → Bool
is_missing_required schema key value = elim (get key schema.properties) [
  | none ↦ false
  | some property ↦ property.required && is_empty value
]

-- the loop over the properties of a custom schema
unfoldable pub check_attributes :
    List (Text × MetadataSchemaProperty) → List (Text × Text) → Result (Unit {0})
check_attributes [] attributes = ok tt
check_attributes ((property_name, property_type) ∷ rest) attributes = do
  revert_if (property_type.required && not (is_some (get property_name attributes)))
      invalid_custom_metadata
  check_attributes rest attributes

unfoldable pub validate_metadata : Host → State → NftMetadataKind → Text → Result Text
validate_metadata h s NftMetadataKind.cep78 token_metadata = do
  token_schema ← get_metadata_schema h s NftMetadataKind.cep78
  metadata ← unwrap_or_revert_with (h.parse_cep78 token_metadata) failed_to_parse_cep99_metadata
  revert_if (is_missing_required token_schema (codes "name") metadata.name) invalid_cep99_metadata
  revert_if (is_missing_required token_schema (codes "token_uri") metadata.token_uri)
      invalid_cep99_metadata
  revert_if (is_missing_required token_schema (codes "checksum") metadata.checksum)
      invalid_cep99_metadata
  unwrap_or_revert_with (h.print_cep78 metadata) failed_to_jsonify_cep99_metadata
validate_metadata h s NftMetadataKind.nft721 token_metadata = do
  token_schema ← get_metadata_schema h s NftMetadataKind.nft721
  metadata ← unwrap_or_revert_with (h.parse_nft721 token_metadata) failed_to_parse_721_metadata
  revert_if (is_missing_required token_schema (codes "name") metadata.name) invalid_nft721_metadata
  revert_if (is_missing_required token_schema (codes "token_uri") metadata.token_uri)
      invalid_nft721_metadata
  revert_if (is_missing_required token_schema (codes "symbol") metadata.symbol)
      invalid_nft721_metadata
  unwrap_or_revert_with (h.print_nft721 metadata) failed_to_jsonify_nft721_metadata
validate_metadata h s NftMetadataKind.raw token_metadata = do
  token_schema ← get_metadata_schema h s NftMetadataKind.raw
  ok token_metadata
validate_metadata h s NftMetadataKind.custom_validated token_metadata = do
  token_schema ← get_metadata_schema h s NftMetadataKind.custom_validated
  attributes ←
      unwrap_or_revert_with (h.parse_attributes token_metadata) failed_to_parse_custom_metadata
  check_attributes token_schema.properties attributes
  unwrap_or_revert_with (h.print_attributes attributes) failed_to_jsonify_custom_metadata

-- `get_metadata_dictionary_name`: which dictionary a kind's metadata is kept in
abbrev pub metadata_dictionary : NftMetadataKind → State → DictCell Text
metadata_dictionary NftMetadataKind.cep78 s = s.metadata_cep78
metadata_dictionary NftMetadataKind.nft721 s = s.metadata_nft721
metadata_dictionary NftMetadataKind.raw s = s.metadata_raw
metadata_dictionary NftMetadataKind.custom_validated s = s.metadata_custom_validated

abbrev pub set_metadata_dictionary : NftMetadataKind → DictCell Text → State → State
set_metadata_dictionary NftMetadataKind.cep78 d s = record s { metadata_cep78 = d }
set_metadata_dictionary NftMetadataKind.nft721 d s = record s { metadata_nft721 = d }
set_metadata_dictionary NftMetadataKind.raw d s = record s { metadata_raw = d }
set_metadata_dictionary NftMetadataKind.custom_validated d s = record s {
  metadata_custom_validated = d;
}
