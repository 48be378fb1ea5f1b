-- ===== src/Runtime/Types.antt =====
-- The values that the host hands to a call.
use Prim.Native.Nat.{ℕ}
use Prim.Native.String.{String}
use mathlib.Core.Path.{◌≡◌}
use mathlib.Core.Bool.{Bool, true, false}
use native.Mathlib.Omega.{arith}
use mathlib.Core.Option.{Option}
use mathlib.Core.List.{List}
use devxdao_m.Common.Tests.{◌==◌}
use devxdao_m.Common.Text.{Text}

-- `casper_types::Key`: an account hash, a contract hash, or one of the other variants.
pub data Key : Type 0 where
  account : ℕ → Key
  hash : ℕ → Key
  other : ℕ → Key

-- `Key::eq`
abbrev pub key_eq : Key → Key → Bool
key_eq (Key.account a) (Key.account b) = a == b
key_eq (Key.hash a) (Key.hash b) = a == b
key_eq (Key.other a) (Key.other b) = a == b
key_eq _ _ = false

-- `casper_types::system::CallStackElement`
pub data CallStackElement : Type 0 where
  session : ℕ → CallStackElement
  stored_session : ℕ → CallStackElement
  stored_contract : ℕ → CallStackElement

-- What fetching a named argument and decoding it at the type asked for gives: the argument is
-- absent, its size or its bytes cannot be had, its bytes do not decode, or a value.
pub data Arg (A : Type 0) : Type 0 where
  absent : Arg A
  size_error : ℕ → Arg A
  bytes_error : ℕ → Arg A
  undecodable : Arg A
  given : A → Arg A

pub record MetadataSchemaProperty : Type 0 where
  pub name : Text
  pub description : Text
  pub required : Bool

-- `BTreeMap<String, MetadataSchemaProperty>` in the order of its keys
pub record CustomMetadataSchema : Type 0 where
  pub properties : List (Text × MetadataSchemaProperty)

pub record MetadataNft721 : Type 0 where
  pub name : Text
  pub symbol : Text
  pub token_uri : Text

pub record MetadataCep78 : Type 0 where
  pub name : Text
  pub token_uri : Text
  pub checksum : Text

-- `BTreeMap<String, String>` in the order of its keys
pub record CustomMetadata : Type 0 where
  pub attributes : List (Text × Text)

-- The functions of casper_types and casper_serde_json_wasm that the contract calls.
pub record Host : Type 0 where
  pub account_hash_to_string : ℕ → Text
  pub contract_hash_to_string : ℕ → Text
  -- the address of `Key::dictionary` at the OWNED_TOKENS seed and an item key
  pub owned_tokens_address : Text → ℕ
  pub parse_schema : Text → Option CustomMetadataSchema
  pub parse_cep78 : Text → Option MetadataCep78
  pub parse_nft721 : Text → Option MetadataNft721
  pub parse_attributes : Text → Option (List (Text × Text))
  pub print_cep78 : MetadataCep78 → Option Text
  pub print_nft721 : MetadataNft721 → Option Text
  pub print_attributes : List (Text × Text) → Option Text

-- One call: who made it, through which call stack (the callee last), and with which arguments.
pub record Env : Type 0 where
  pub caller : ℕ
  pub call_stack : List CallStackElement
  pub arg_bool : String → Arg Bool
  pub arg_u8 : String → Arg ℕ
  pub arg_u64 : String → Arg ℕ
  pub arg_text : String → Arg Text
  pub arg_key : String → Arg Key
  pub arg_hashes : String → Arg (List ℕ)
  pub arg_option_bool : String → Arg (Option Bool)
  pub arg_option_u8 : String → Arg (Option ℕ)
  pub arg_option_hashes : String → Arg (Option (List ℕ))

pub key_eq→eq : (a b : Key) → key_eq a b ≡ true → a ≡ b
key_eq→eq a b h = ground arith

pub key_eq_refl : (a : Key) → key_eq a a ≡ true
key_eq_refl a = ground arith
