-- ===== src/Tests/Interface.antt =====
-- Runs of the byte serialisation, the host's buffers and the installations, and an example of each
-- result on them.
use devxdao_m.Common.{◌≡◌, refl, true, [], ◌∷◌, ◌++◌, ◌+◌, ◌<◌, ◌^◌, arith}
use devxdao_m.Common.Text.{Text, codes}
use devxdao_m.Runtime.{MetadataSchemaProperty, CustomMetadataSchema, ok}
use devxdao_m.Runtime.Bytes.{Bytes, BytesResult, done, failed}
use devxdao_m.Runtime.Ffi
use devxdao_m.Runtime.Ffi.{Ffi}
use devxdao_m.Contract.Constants
use devxdao_m.Contract.Error.{missing_collection_name, invalid_collection_name}
use devxdao_m.Contract.Utils.Serial.{
  property_to_bytes, property_serialized_length, schema_to_bytes, schema_from_bytes,
  schema_serialized_length,
}
use devxdao_m.Contract.Utils.Args.{get_named_arg_with_user_errors}
use devxdao_m.Contract.Utils.Reads.{
  get_key_with_user_errors, named_uref_exists, read_with_user_errors,
}
use devxdao_m.Contract.Utils.Buffers.{fetch_named_arg, fetch_key, key_exists, fetch_value}
use devxdao_m.Bytes.Schema.{schema_from_bytes-schema_to_bytes, serialized_length-to_bytes}
use devxdao_m.Bytes.Simple.{
  simple, simple-IsDocumented, write_pairs, write_map, map_length, read_text, empty_buffer,
}
use devxdao_m.Bytes.Fetch.{fetch-answers, arg_of, named_key_of, slot_of}

-- The schema of an NFT721 token, less its descriptions.
abbrev flat : Text → MetadataSchemaProperty
flat name = record { name = name; description = []; required = true }

abbrev schema : CustomMetadataSchema
schema = record {
  properties = (codes "name", flat (codes "name")) ∷ (codes "symbol", flat (codes "symbol")) ∷ [];
}

abbrev schema_bytes : Bytes
schema_bytes =
    2 ∷ (4 ∷ codes "name")
    ++ ((4 ∷ codes "name")
        ++ (0 ∷ 1 ∷ ((6 ∷ codes "symbol") ++ ((6 ∷ codes "symbol") ++ (0 ∷ 1 ∷ [])))))

run_schema_to_bytes : schema_to_bytes simple schema ≡ done schema_bytes
unfolding schema_to_bytes schema_serialized_length property_to_bytes property_serialized_length
    write_map write_pairs map_length empty_buffer
run_schema_to_bytes = refl

run_property_to_bytes :
    property_to_bytes simple (flat (codes "name")) ≡ done ((4 ∷ codes "name") ++ (0 ∷ 1 ∷ []))
unfolding property_to_bytes property_serialized_length empty_buffer
run_property_to_bytes = refl

schema_from_bytes-schema_to_bytes_example :
    schema_from_bytes simple (schema_bytes ++ (9 ∷ [])) ≡ done (schema, 9 ∷ [])
schema_from_bytes-schema_to_bytes_example =
    schema_from_bytes-schema_to_bytes simple simple-IsDocumented schema schema_bytes (9 ∷ [])
      (refl, (refl, tt)) run_schema_to_bytes

serialized_length-to_bytes_example :
    (schema_serialized_length simple schema ≡ 29)
    × (property_serialized_length simple (flat (codes "name")) ≡ 7)
    × (5 + 1 + 1 < 2 ^ 32)
serialized_length-to_bytes_example =
    serialized_length-to_bytes simple simple-IsDocumented schema (flat (codes "name")) schema_bytes
      ((4 ∷ codes "name") ++ (0 ∷ 1 ∷ [])) (refl, (refl, tt)) run_schema_to_bytes (omega arith)
      run_property_to_bytes (omega arith)

-- Every argument and every value is the text "C", and no key is there.
abbrev ffi : Ffi
ffi = record {
  number = λ e. 7;
  bytes_number = λ e. 8;
  name_to_bytes = λ name. done (codes name);
  uref_to_bytes = λ uref. done (uref ∷ []);
  max_serialized_length = 42;
  casper_get_named_arg_size = λ name. Ffi.success 2;
  casper_get_named_arg = λ name size. Ffi.success (1 ∷ codes "C");
  casper_get_key = λ name size. Ffi.error Ffi.missing_key;
  casper_read_value = λ key. Ffi.success 2;
  casper_read_host_buffer = λ key size. Ffi.success (1 ∷ codes "C", 2);
}

-- `bytesrepr::deserialize` at a text
abbrev deserialize : Bytes → BytesResult Text
deserialize bytes = elim (read_text bytes) [
  | done (text, []) ↦ done text
  | done (text, x ∷ rest) ↦ failed 2
  | failed e ↦ failed e
]

fetch-answers_example :
    (fetch_named_arg ffi deserialize Constants.arg_collection_name missing_collection_name
        invalid_collection_name
      ≡ get_named_arg_with_user_errors
          (arg_of ffi deserialize Constants.arg_collection_name)
          missing_collection_name
          invalid_collection_name)
    × (fetch_key ffi deserialize Constants.arg_collection_name missing_collection_name
          invalid_collection_name
        ≡ get_key_with_user_errors
            (named_key_of ffi deserialize (codes Constants.arg_collection_name))
            missing_collection_name
            invalid_collection_name)
    × (key_exists ffi Constants.arg_collection_name
        ≡ ok (
            named_uref_exists (named_key_of ffi deserialize (codes Constants.arg_collection_name))))
    × (fetch_value ffi deserialize 3 missing_collection_name invalid_collection_name
        ≡ read_with_user_errors
            (slot_of ffi deserialize (3 ∷ []))
            missing_collection_name
            invalid_collection_name)
fetch-answers_example =
    fetch-answers ffi deserialize deserialize deserialize missing_collection_name
      invalid_collection_name Constants.arg_collection_name (codes Constants.arg_collection_name) 3
      (3 ∷ []) refl refl
