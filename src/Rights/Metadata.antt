-- ===== src/Rights/Metadata.antt =====
-- Metadata: what is accepted, and what can be read back (casper/contract/src/utils.rs and main.rs).
use devxdao_m.Common.{
  ◌≡◌, ◌≢◌, true, false, not, ◌&&◌, some, List, [], ◌∷◌, is_empty, is_some, arith,
}
use devxdao_m.Common.Text.{Text, text_eq}
use devxdao_m.Runtime.{
  Host, Env, MetadataSchemaProperty, CustomMetadataSchema, MetadataCep78, MetadataNft721, ok,
  >>=-elim, revert_if, unwrap_or_revert_with,
}
use devxdao_m.Contract.Error.{
  invalid_custom_metadata, failed_to_parse_custom_metadata, invalid_json_schema,
  failed_to_parse_cep99_metadata, failed_to_parse_721_metadata, invalid_cep99_metadata,
  invalid_nft721_metadata, failed_to_jsonify_cep99_metadata, failed_to_jsonify_nft721_metadata,
}
use devxdao_m.Contract.Modes.{NftMetadataKind}
use devxdao_m.Contract.State.{State}
use devxdao_m.Contract.Utils.Reads.{get_number_of_minted_tokens, get_identifier_mode}
use devxdao_m.Contract.Utils.Tokens.{get_token_identifier_from_runtime_args}
use devxdao_m.Contract.Utils.Metadata.{
  get, check_attributes, get_metadata_schema, validate_metadata,
}
use devxdao_m.Contract.Counts.{require_in_bounds}
use devxdao_m.Contract.Query.{metadata}
use devxdao_m.Ledger.Defs.{Ledger, deployed}
use devxdao_m.Ledger.Writes.{unwrap_or_revert_with-eq-ok}
use devxdao_m.History.Steps.{Reach}
use devxdao_m.History.Config.{Reach-Continues}

-- Every required property has an attribute.
abbrev pub HasRequired : List (Text × MetadataSchemaProperty) → List (Text × Text) → Type 0
HasRequired [] attributes = Unit {0}
HasRequired ((name, property) ∷ rest) attributes =
    (property.required ≡ true → is_some (get name attributes) ≡ true) × HasRequired rest attributes

-- What a kind asks of a token's metadata, and how the text that is kept comes of it.
abbrev pub Accepts : Host → Ledger → NftMetadataKind → Text → Text → Type 0
Accepts h d NftMetadataKind.cep78 text kept =
    (m : MetadataCep78) × (h.parse_cep78 text ≡ some m)
    × (is_empty m.name ≡ false)
    × (is_empty m.token_uri ≡ false)
    × (is_empty m.checksum ≡ false)
    × (h.print_cep78 m ≡ some kept)
Accepts h d NftMetadataKind.nft721 text kept =
    (m : MetadataNft721) × (h.parse_nft721 text ≡ some m)
    × (is_empty m.name ≡ false)
    × (is_empty m.symbol ≡ false)
    × (is_empty m.token_uri ≡ false)
    × (h.print_nft721 m ≡ some kept)
Accepts h d NftMetadataKind.raw text kept = kept ≡ text
Accepts h d NftMetadataKind.custom_validated text kept =
    (schema : CustomMetadataSchema) × (attributes : List (Text × Text)) × (h.parse_schema
        d.json_schema
      ≡ some schema)
    × (h.parse_attributes text ≡ some attributes)
    × HasRequired schema.properties attributes
    × (h.print_attributes attributes ≡ some kept)

check_attributes-HasRequired :
    (l : List (Text × MetadataSchemaProperty)) (attributes : List (Text × Text)) {u : Unit {0}}
    → check_attributes l attributes ≡ ok u
    → HasRequired l attributes
unfolding check_attributes
check_attributes-HasRequired [] attributes p = tt
check_attributes-HasRequired ((name, property) ∷ rest) attributes p0 =
    >>=-elim
      (revert_if (property.required && not (is_some (get name attributes))) invalid_custom_metadata)
      _ p0 λ u q p1. (λ required. ground arith, check_attributes-HasRequired rest attributes p1)

-- Metadata that passes the check is what its kind asks for: the required fields of the fixed kinds are
-- not empty, raw metadata is kept as it is, and a custom kind's attributes include every property that
-- the stored schema requires.
pub validate_metadata-Accepts :
    (h : Host) (d : Ledger) (kind : NftMetadataKind) (text : Text) {kept : Text}
    → validate_metadata h (deployed d) kind text ≡ ok kept
    → Accepts h d kind text kept
unfolding validate_metadata get_metadata_schema get text_eq
validate_metadata-Accepts h d NftMetadataKind.cep78 text p0 =
    >>=-elim (unwrap_or_revert_with (h.parse_cep78 text) failed_to_parse_cep99_metadata) _ p0
      λ m q1 p1. >>=-elim (revert_if (is_empty m.name) invalid_cep99_metadata) _ p1 λ u2 q2 p2.
        >>=-elim (revert_if (is_empty m.token_uri) invalid_cep99_metadata) _ p2 λ u3 q3 p3.
          >>=-elim (revert_if (is_empty m.checksum) invalid_cep99_metadata) _ p3 λ u4 q4 p4. (
            m,
            unwrap_or_revert_with-eq-ok (h.parse_cep78 text) failed_to_parse_cep99_metadata q1,
            ground arith,
            ground arith,
            ground arith,
            unwrap_or_revert_with-eq-ok (h.print_cep78 m) failed_to_jsonify_cep99_metadata p4,
          )
validate_metadata-Accepts h d NftMetadataKind.nft721 text p0 =
    >>=-elim (unwrap_or_revert_with (h.parse_nft721 text) failed_to_parse_721_metadata) _ p0
      λ m q1 p1. >>=-elim (revert_if (is_empty m.name) invalid_nft721_metadata) _ p1 λ u2 q2 p2.
        >>=-elim (revert_if (is_empty m.token_uri) invalid_nft721_metadata) _ p2 λ u3 q3 p3.
          >>=-elim (revert_if (is_empty m.symbol) invalid_nft721_metadata) _ p3 λ u4 q4 p4. (
            m,
            unwrap_or_revert_with-eq-ok (h.parse_nft721 text) failed_to_parse_721_metadata q1,
            ground arith,
            ground arith,
            ground arith,
            unwrap_or_revert_with-eq-ok (h.print_nft721 m) failed_to_jsonify_nft721_metadata p4,
          )
validate_metadata-Accepts h d NftMetadataKind.raw text p = ground arith
validate_metadata-Accepts h d NftMetadataKind.custom_validated text p0 =
    >>=-elim (unwrap_or_revert_with (h.parse_schema d.json_schema) invalid_json_schema) _ p0
      λ schema q1 p1.
        >>=-elim (unwrap_or_revert_with (h.parse_attributes text) failed_to_parse_custom_metadata) _
          p1
          λ attributes q2 p2.
            >>=-elim (check_attributes schema.properties attributes) _ p2 λ u q3 p3. (
              schema,
              attributes,
              unwrap_or_revert_with-eq-ok (h.parse_schema d.json_schema) invalid_json_schema q1,
              unwrap_or_revert_with-eq-ok (h.parse_attributes text) failed_to_parse_custom_metadata
                  q2,
              check_attributes-HasRequired schema.properties attributes q3,
              ground arith,
            )

metadata_deployed : (e : Env) (d : Ledger) {text : Text} → metadata e (deployed d) ≢ ok text
unfolding metadata
metadata_deployed e d p0 = >>=-elim (get_number_of_minted_tokens (deployed d)) _ p0 λ n q1 p1.
    >>=-elim (get_identifier_mode (deployed d)) _ p1 λ mode q2 p2.
      >>=-elim (get_token_identifier_from_runtime_args e mode) _ p2
        λ t q3 p3. >>=-elim (require_in_bounds mode t n) _ p3 λ u q4 p4. cc

-- `metadata` reads the kind under a name that nothing writes: whatever calls are made on an
-- initialised instance, it never answers with a token's metadata.
pub metadata_unavailable :
    (h : Host) (e : Env) (d : Ledger) {s : State} {text : Text}
    → Reach h (deployed d) s
    → metadata e s ≢ ok text
metadata_unavailable h e d r p =
    let (d', at, f) = Reach-Continues h d r in metadata_deployed e d' (rw at at p)
