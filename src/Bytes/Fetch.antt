-- ===== src/Bytes/Fetch.antt =====
-- The functions that fetch bytes from the host (casper/contract/src/utils.rs) against the answers that
-- the rest of the model takes for a named argument, a named key and a stored value.
use Prim.Native.String.{String}
use devxdao_m.Common.{ℕ, ◌≡◌, zero, suc, [], arith}
use devxdao_m.Runtime.{Arg, NamedKey, Slot, ok}
use devxdao_m.Runtime.Bytes.{Bytes, BytesResult, done, failed}
use devxdao_m.Runtime.Ffi.{Ffi, Ret, ApiCode}
use devxdao_m.Contract.Error.{NftCoreError}
use devxdao_m.Contract.Utils.Args.{get_named_arg_with_user_errors}
use devxdao_m.Contract.Utils.Reads.{
  get_key_with_user_errors, named_uref_exists, read_with_user_errors,
}
use devxdao_m.Contract.Utils.Buffers.{
  to_ptr, truncate, get_named_arg_size, get_arg_bytes, fetch_named_arg, fetch_key, key_exists,
  read_host_buffer_into, read_host_buffer, fetch_value,
}

-- An argument that has been fetched, or could not be.
abbrev arg_bytes : {A : Type 0} → Ffi → (Bytes → BytesResult A) → Ret Bytes → Arg A
arg_bytes f deserialize (Ret.error e) = Arg.bytes_error (f.number e)
arg_bytes f deserialize (Ret.success bytes) = elim (deserialize bytes) [
  | done a ↦ Arg.given a
  | failed e ↦ Arg.undecodable
]

-- An argument by its size: nothing is fetched for an empty one.
abbrev sized_arg : {A : Type 0} → Ffi → (Bytes → BytesResult A) → String → Ret ℕ → Arg A
sized_arg f deserialize name (Ret.error ApiCode.missing_argument) = Arg.absent
sized_arg f deserialize name (Ret.error e) = Arg.size_error (f.number e)
sized_arg f deserialize name (Ret.success zero) = arg_bytes f deserialize (Ret.success [])
sized_arg f deserialize name (Ret.success (suc n)) =
    arg_bytes f deserialize (f.casper_get_named_arg name (suc n))

pub arg_of : {A : Type 0} → Ffi → (Bytes → BytesResult A) → String → Arg A
arg_of f deserialize name = sized_arg f deserialize name (f.casper_get_named_arg_size name)

-- A named key that the host has written to a buffer, or has not.
abbrev key_answer : {A : Type 0} → Ffi → (Bytes → BytesResult A) → Ret (Bytes × ℕ) → NamedKey A
key_answer f deserialize (Ret.error ApiCode.missing_key) = NamedKey.missing
key_answer f deserialize (Ret.error e) = NamedKey.failed (f.number e)
key_answer f deserialize (Ret.success (key_bytes, total_bytes)) =
    elim (deserialize (truncate total_bytes key_bytes)) [
      | done a ↦ NamedKey.found a
      | failed e ↦ NamedKey.malformed
    ]

pub named_key_of : {A : Type 0} → Ffi → (Bytes → BytesResult A) → Bytes → NamedKey A
named_key_of f deserialize name_bytes =
    key_answer f deserialize (f.casper_get_key name_bytes f.max_serialized_length)

-- A value behind a reference that the host has written to a buffer, or has not.
abbrev value_bytes : {A : Type 0} → Ffi → (Bytes → BytesResult A) → Ret (Bytes × ℕ) → Slot A
value_bytes f deserialize (Ret.error e) = Slot.read_error (f.number e)
value_bytes f deserialize (Ret.success (bytes, bytes_written)) = elim (deserialize bytes) [
  | done a ↦ Slot.holds a
  | failed e ↦ Slot.undecodable
]

abbrev sized_value : {A : Type 0} → Ffi → (Bytes → BytesResult A) → Bytes → Ret ℕ → Slot A
sized_value f deserialize key_bytes (Ret.error ApiCode.value_not_found) = Slot.not_found
sized_value f deserialize key_bytes (Ret.error e) = Slot.read_error (f.number e)
sized_value f deserialize key_bytes (Ret.success value_size) =
    value_bytes f deserialize (f.casper_read_host_buffer key_bytes value_size)

pub slot_of : {A : Type 0} → Ffi → (Bytes → BytesResult A) → Bytes → Slot A
slot_of f deserialize key_bytes =
    sized_value f deserialize key_bytes (f.casper_read_value key_bytes)

module _ (f : Ffi) {A : Type 0} (deserialize : Bytes → BytesResult A)
    (missing invalid : NftCoreError) where
  fetch_named_arg-arg_of :
      (name : String)
      → fetch_named_arg f deserialize name missing invalid
        ≡ get_named_arg_with_user_errors (arg_of f deserialize name) missing invalid
  unfolding fetch_named_arg get_named_arg_size get_arg_bytes arg_of
  fetch_named_arg-arg_of name = ground arith

  fetch_key-named_key_of :
      (name : String) (name_bytes : Bytes)
      → f.name_to_bytes name ≡ done name_bytes
      → fetch_key f deserialize name missing invalid
        ≡ get_key_with_user_errors (named_key_of f deserialize name_bytes) missing invalid
  unfolding fetch_key to_ptr named_key_of
  fetch_key-named_key_of name name_bytes wrote = ground arith

  key_exists-named_key_of :
      (name : String) (name_bytes : Bytes)
      → f.name_to_bytes name ≡ done name_bytes
      → key_exists f name ≡ ok (named_uref_exists (named_key_of f deserialize name_bytes))
  unfolding key_exists to_ptr named_key_of
  key_exists-named_key_of name name_bytes wrote = ground arith

  fetch_value-slot_of :
      (uref : ℕ) (uref_bytes : Bytes)
      → f.uref_to_bytes uref ≡ done uref_bytes
      → fetch_value f deserialize uref missing invalid
        ≡ read_with_user_errors (slot_of f deserialize uref_bytes) missing invalid
  unfolding fetch_value read_host_buffer read_host_buffer_into to_ptr slot_of
  fetch_value-slot_of uref uref_bytes wrote = ground arith

-- Where the bytes of the name and of the reference can be had, fetching a named argument, a named key
-- and a stored value through the host's buffers gives what the model's reads make of the host's answers,
-- errors included; and a name exists exactly where the host answers with a key for it.
pub fetch-answers :
    (f : Ffi) {A B C : Type 0} (arg : Bytes → BytesResult A) (key : Bytes → BytesResult B)
    (value : Bytes → BytesResult C) (missing invalid : NftCoreError) (name : String)
    (name_bytes : Bytes) (uref : ℕ) (uref_bytes : Bytes)
    → f.name_to_bytes name ≡ done name_bytes
    → f.uref_to_bytes uref ≡ done uref_bytes
    → (fetch_named_arg f arg name missing invalid
        ≡ get_named_arg_with_user_errors (arg_of f arg name) missing invalid)
      × (fetch_key f key name missing invalid
          ≡ get_key_with_user_errors (named_key_of f key name_bytes) missing invalid)
      × (key_exists f name ≡ ok (named_uref_exists (named_key_of f key name_bytes)))
      × (fetch_value f value uref missing invalid
          ≡ read_with_user_errors (slot_of f value uref_bytes) missing invalid)
fetch-answers f arg key value missing invalid name name_bytes uref uref_bytes named referred = (
  fetch_named_arg-arg_of f arg missing invalid name,
  fetch_key-named_key_of f key missing invalid name name_bytes named,
  key_exists-named_key_of f key missing invalid name name_bytes named,
  fetch_value-slot_of f value missing invalid uref uref_bytes referred,
)
