-- ===== src/Contract/Utils/Serial.antt =====
-- The byte serialisation of the metadata schemas (casper/contract/src/utils.rs): `ToBytes` and
-- `FromBytes` of `MetadataSchemaProperty` and `CustomMetadataSchema`, and their `CLTyped`.
use devxdao_m.Common.{ℕ, ◌+◌, ◌%◌, ◌^◌, ◌++◌}
use devxdao_m.Runtime.{MetadataSchemaProperty, CustomMetadataSchema}
use devxdao_m.Runtime.Contracts.{ClType}
use devxdao_m.Runtime.Bytes.{Bytes, BytesResult, done, ◌>>=◌, Codec, Bytesrepr}

-- `MetadataSchemaProperty::cl_type`
abbrev property_cl_type : ClType
property_cl_type = ClType.any

-- `CustomMetadataSchema::cl_type`
abbrev schema_cl_type : ClType
schema_cl_type = ClType.any

module _ (b : Bytesrepr) where
  -- `MetadataSchemaProperty::serialized_length`, a sum of `usize`
  unfoldable pub property_serialized_length : MetadataSchemaProperty → ℕ
  property_serialized_length p =
      (b.string.serialized_length p.name
        + b.string.serialized_length p.description
        + b.bool.serialized_length p.required)
      % 2 ^ 32

  -- `MetadataSchemaProperty::to_bytes`
  unfoldable pub property_to_bytes : MetadataSchemaProperty → BytesResult Bytes
  property_to_bytes p = do
    result ← b.allocate_buffer (property_serialized_length p)
    name ← b.string.to_bytes p.name
    description ← b.string.to_bytes p.description
    required ← b.bool.to_bytes p.required
    done (((result ++ name) ++ description) ++ required)

  -- `MetadataSchemaProperty::from_bytes`
  unfoldable pub property_from_bytes : Bytes → BytesResult (MetadataSchemaProperty × Bytes)
  property_from_bytes bytes = do
    (name, remainder) ← b.string.from_bytes bytes
    (description, remainder') ← b.string.from_bytes remainder
    (required, remainder'') ← b.bool.from_bytes remainder'
    done (record { name = name; description = description; required = required }, remainder'')

  -- The two `impl` blocks together, as `BTreeMap` takes them.
  abbrev pub property_codec : Codec MetadataSchemaProperty
  property_codec = record {
    to_bytes = property_to_bytes;
    serialized_length = property_serialized_length;
    from_bytes = property_from_bytes;
  }

  -- `CustomMetadataSchema::serialized_length`
  unfoldable pub schema_serialized_length : CustomMetadataSchema → ℕ
  schema_serialized_length s = (b.btree_map property_codec).serialized_length s.properties

  -- `CustomMetadataSchema::to_bytes`
  unfoldable pub schema_to_bytes : CustomMetadataSchema → BytesResult Bytes
  schema_to_bytes s = do
    result ← b.allocate_buffer (schema_serialized_length s)
    properties ← (b.btree_map property_codec).to_bytes s.properties
    done (result ++ properties)

  -- `CustomMetadataSchema::from_bytes`
  unfoldable pub schema_from_bytes : Bytes → BytesResult (CustomMetadataSchema × Bytes)
  schema_from_bytes bytes = do
    (properties, remainder) ← (b.btree_map property_codec).from_bytes bytes
    done (record { properties = properties }, remainder)

  abbrev pub schema_codec : Codec CustomMetadataSchema
  schema_codec = record {
    to_bytes = schema_to_bytes;
    serialized_length = schema_serialized_length;
    from_bytes = schema_from_bytes;
  }
