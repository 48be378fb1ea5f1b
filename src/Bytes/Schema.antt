-- ===== src/Bytes/Schema.antt =====
-- `ToBytes` and `FromBytes` of the schema types (casper/contract/src/utils.rs): what is written is read
-- back, and how long it is.
use mathlib.Core.List.{append_assoc}
use devxdao_m.Common.{ℕ, ◌+◌, ◌<◌, ◌^◌, ◌≡◌, refl, sym, ap, ◌∙◌, [], ◌∷◌, ◌++◌, arith}
use devxdao_m.Common.Lists.{length}
use devxdao_m.Runtime.{MetadataSchemaProperty, CustomMetadataSchema}
use devxdao_m.Runtime.Bytes.{
  Bytes, BytesResult, done, failed, ◌>>=◌, IsLawful, Ascends, Always, Bytesrepr, IsDocumented,
}
use devxdao_m.Contract.Utils.Serial.{
  property_to_bytes, property_from_bytes, property_serialized_length, property_codec,
  schema_to_bytes, schema_from_bytes, schema_serialized_length,
}

-- A chain that succeeds is taken apart.
pub >>=-elim {ℓ κ μ} :
    {A : Type ℓ} {B : Type κ} {C : Type μ} (first : BytesResult A) (rest : A → BytesResult B)
    {b : B}
    → (first >>= rest) ≡ done b
    → ((a : A) → first ≡ done a → rest a ≡ done b → C)
    → C
>>=-elim (done a) rest p k = k a refl p
>>=-elim (failed e) rest p k = cc

pub done-injective {ℓ} : {A : Type ℓ} {a b : A} → done a ≡ done b → a ≡ b
done-injective h = cc

pub length-append : (xs ys : Bytes) → length (xs ++ ys) ≡ length xs + length ys
length-append [] ys = omega arith
length-append (x ∷ xs) ys = omega (arith, length-append xs ys)

-- What a property's bytes are made of.
record Parts (b : Bytesrepr) (p : MetadataSchemaProperty) (bytes : Bytes) : Type 0 where
  name : Bytes
  description : Bytes
  required : Bytes
  wrote_name : b.string.to_bytes p.name ≡ done name
  wrote_description : b.string.to_bytes p.description ≡ done description
  wrote_required : b.bool.to_bytes p.required ≡ done required
  joined : bytes ≡ name ++ (description ++ required)

module _ (b : Bytesrepr) (d : IsDocumented b) where
  property_to_bytes-Parts :
      (p : MetadataSchemaProperty) (bytes : Bytes)
      → property_to_bytes b p ≡ done bytes
      → Parts b p bytes
  unfolding property_to_bytes
  property_to_bytes-Parts p bytes wrote =
      >>=-elim (b.allocate_buffer (property_serialized_length b p)) _ wrote λ buffer q0 p0.
        >>=-elim (b.string.to_bytes p.name) _ p0 λ n q1 p1.
          >>=-elim (b.string.to_bytes p.description) _ p1 λ t q2 p2.
            >>=-elim (b.bool.to_bytes p.required) _ p2 λ r q3 p3. record {
              name = n;
              description = t;
              required = r;
              wrote_name = q1;
              wrote_description = q2;
              wrote_required = q3;
              joined =
                  sym (done-injective p3)
                  ∙ rw (d.allocate_buffer-empty _ buffer q0) (append_assoc n t r);
            }

  property_from_bytes-Parts :
      (p : MetadataSchemaProperty) (bytes rest : Bytes)
      → Parts b p bytes
      → property_from_bytes b (bytes ++ rest) ≡ done (p, rest)
  unfolding property_from_bytes
  property_from_bytes-Parts p bytes rest w = rw w.joined (
      rw append_assoc (
        rw append_assoc (
          rw (text.from_bytes-to_bytes p.name w.name _ tt w.wrote_name) (
            rw (text.from_bytes-to_bytes p.description w.description _ tt w.wrote_description) (
              rw (flag.from_bytes-to_bytes p.required w.required rest tt w.wrote_required) refl)))))
    where
      text : IsLawful Always b.string
      text = d.string-IsLawful

      flag : IsLawful Always b.bool
      flag = d.bool-IsLawful

  property_sum-Parts :
      (p : MetadataSchemaProperty) (bytes : Bytes)
      → Parts b p bytes
      → length bytes < 2 ^ 32
      → b.string.serialized_length p.name
          + b.string.serialized_length p.description
          + b.bool.serialized_length p.required
        ≡ length bytes
  property_sum-Parts p bytes w fits = omega (
    arith,
    total,
    d.string-IsLawful.serialized_length-to_bytes p.name w.name tt w.wrote_name
        (omega (arith, total)),
    d.string-IsLawful.serialized_length-to_bytes p.description w.description tt w.wrote_description
        (omega (arith, total)),
    d.bool-IsLawful.serialized_length-to_bytes p.required w.required tt w.wrote_required
        (omega (arith, total)),
  )
    where
      total : length bytes ≡ length w.name + (length w.description + length w.required)
      total =
          ap length w.joined
          ∙ length-append w.name (w.description ++ w.required)
          ∙ ap (λ (k : ℕ). length w.name + k) (length-append w.description w.required)

  property_length-Parts :
      (p : MetadataSchemaProperty) (bytes : Bytes)
      → Parts b p bytes
      → length bytes < 2 ^ 32
      → property_serialized_length b p ≡ length bytes
  unfolding property_serialized_length
  property_length-Parts p bytes w fits = omega (arith, property_sum-Parts p bytes w fits)

  pub property_codec-IsLawful : IsLawful Always (property_codec b)
  property_codec-IsLawful = record {
    from_bytes-to_bytes = λ p bytes rest always wrote.
        property_from_bytes-Parts p bytes rest (property_to_bytes-Parts p bytes wrote);
    serialized_length-to_bytes = λ p bytes always wrote fits.
        property_length-Parts p bytes (property_to_bytes-Parts p bytes wrote) fits;
  }

  -- A schema is written as its map is.
  schema_to_bytes-map :
      (s : CustomMetadataSchema) (bytes : Bytes)
      → schema_to_bytes b s ≡ done bytes
      → (b.btree_map (property_codec b)).to_bytes s.properties ≡ done bytes
  unfolding schema_to_bytes
  schema_to_bytes-map s bytes wrote =
      >>=-elim (b.allocate_buffer (schema_serialized_length b s)) _ wrote λ buffer q0 p0.
        >>=-elim ((b.btree_map (property_codec b)).to_bytes s.properties) _ p0
          λ m q1 p1. q1 ∙ sym (ap (λ t. done (t ++ m)) (d.allocate_buffer-empty _ buffer q0)) ∙ p1

  map-IsLawful : IsLawful Ascends (b.btree_map (property_codec b))
  map-IsLawful = d.btree_map-IsLawful (property_codec b) property_codec-IsLawful

  -- A schema whose properties stand in the order of their keys is read back from the bytes that it was
  -- written as, whatever bytes follow, and those are left over.
  pub schema_from_bytes-schema_to_bytes :
      (s : CustomMetadataSchema) (bytes rest : Bytes)
      → Ascends s.properties
      → schema_to_bytes b s ≡ done bytes
      → schema_from_bytes b (bytes ++ rest) ≡ done (s, rest)
  unfolding schema_from_bytes
  schema_from_bytes-schema_to_bytes s bytes rest ascends wrote =
      rw
        (map-IsLawful.from_bytes-to_bytes s.properties bytes rest ascends
          (schema_to_bytes-map s bytes wrote))
        refl

  -- `serialized_length` of a schema whose properties stand in the order of their keys is the number of
  -- bytes that it is written as, if that number is below 2 ^ 32; so is that of each property, and the
  -- sum of `usize` in it does not wrap.
  pub serialized_length-to_bytes :
      (s : CustomMetadataSchema) (p : MetadataSchemaProperty) (schema_bytes property_bytes : Bytes)
      → Ascends s.properties
      → schema_to_bytes b s ≡ done schema_bytes
      → length schema_bytes < 2 ^ 32
      → property_to_bytes b p ≡ done property_bytes
      → length property_bytes < 2 ^ 32
      → (schema_serialized_length b s ≡ length schema_bytes)
        × (property_serialized_length b p ≡ length property_bytes)
        × (b.string.serialized_length p.name
              + b.string.serialized_length p.description
              + b.bool.serialized_length p.required
            < 2 ^ 32)
  unfolding schema_serialized_length
  serialized_length-to_bytes s p schema_bytes property_bytes ascends wrote fits wrote' fits' = (
    map-IsLawful.serialized_length-to_bytes s.properties schema_bytes ascends
        (schema_to_bytes-map s schema_bytes wrote) fits,
    property_length-Parts p property_bytes parts fits',
    omega (arith, property_sum-Parts p property_bytes parts fits'),
  )
    where
      parts : Parts b p property_bytes
      parts = property_to_bytes-Parts p property_bytes wrote'
