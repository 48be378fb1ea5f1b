-- ===== src/Contract/Utils/Buffers.antt =====
-- The functions that fetch bytes from the host (casper/contract/src/utils.rs): sizes, buffers, and what
-- they make of the host's return codes.
use Prim.Native.String.{String}
use devxdao_m.Common.{ℕ, zero, suc, Bool, true, false, Option, none, some, [], ◌∷◌, ltb}
use devxdao_m.Runtime.{ApiError, Result, ok, revert, Try, success, failure, ◌>>=◌}
use devxdao_m.Runtime.Bytes.{Bytes, BytesResult, done, failed}
use devxdao_m.Runtime.Ffi.{Ffi, Ret, ApiCode, revert_with}
use devxdao_m.Contract.Error.{NftCoreError, failed_to_get_arg_bytes}

-- `Vec::truncate`
unfoldable pub truncate : ℕ → Bytes → Bytes
truncate zero bytes = []
truncate (suc n) [] = []
truncate (suc n) (x ∷ bytes) = x ∷ truncate n bytes

-- `bytesrepr::deserialize(bytes).map_err(|_| invalid)`
abbrev pub deserialized : {A : Type 0} → BytesResult A → NftCoreError → Try A
deserialized (done a) invalid = success a
deserialized (failed e) invalid = failure invalid

-- `bytesrepr::deserialize(bytes).unwrap_or_revert_with(invalid)`
abbrev pub deserialized_or_revert : {A : Type 0} → BytesResult A → NftCoreError → Result A
deserialized_or_revert (done a) invalid = ok a
deserialized_or_revert (failed e) invalid = revert (ApiError.user invalid)

module _ (f : Ffi) where
  -- The bytes that `to_ptr` hands out with their address and size.
  unfoldable pub to_ptr : BytesResult Bytes → Result Bytes
  to_ptr (done bytes) = ok bytes
  to_ptr (failed e) = revert (ApiError.host_error (f.bytes_number e))

  unfoldable pub get_named_arg_size : String → Result (Option ℕ)
  get_named_arg_size name = elim (f.casper_get_named_arg_size name) [
    | Ret.success arg_size ↦ ok (some arg_size)
    | Ret.error e ↦ elim e [
      | ApiCode.missing_argument ↦ ok none
      | ApiCode.missing_key ↦ revert_with f ApiCode.missing_key
      | ApiCode.value_not_found ↦ revert_with f ApiCode.value_not_found
      | ApiCode.code n ↦ revert_with f (ApiCode.code n)
    ]
  ]

  -- The `if arg_size > 0` of `get_named_arg_with_user_errors`.
  unfoldable pub get_arg_bytes : String → ℕ → Result Bytes
  get_arg_bytes name arg_size = elim (ltb 0 arg_size) [
    | true ↦ elim (f.casper_get_named_arg name arg_size) [
      | Ret.success bytes ↦ ok bytes
      | Ret.error e ↦ revert (ApiError.user failed_to_get_arg_bytes)
    ]
    | false ↦ ok []
  ]

  module _ {A : Type 0} (deserialize : Bytes → BytesResult A) where
    -- `get_named_arg_with_user_errors` once the size is there
    unfoldable pub fetch_sized_arg :
        String → Option ℕ → NftCoreError → NftCoreError → Result (Try A)
    fetch_sized_arg name none missing invalid = ok (failure missing)
    fetch_sized_arg name (some arg_size) missing invalid = do
      arg_bytes ← get_arg_bytes name arg_size
      ok (deserialized (deserialize arg_bytes) invalid)

    unfoldable pub fetch_named_arg : String → NftCoreError → NftCoreError → Result (Try A)
    unfolding fetch_sized_arg
    fetch_named_arg name missing invalid = do
      arg_size ← get_named_arg_size name
      fetch_sized_arg name arg_size missing invalid

    -- `get_key_with_user_errors`
    unfoldable pub fetch_key : String → NftCoreError → NftCoreError → Result A
    fetch_key name missing invalid = do
      name_bytes ← to_ptr (f.name_to_bytes name)
      elim (f.casper_get_key name_bytes f.max_serialized_length) [
        | Ret.success (key_bytes, total_bytes) ↦
            deserialized_or_revert (deserialize (truncate total_bytes key_bytes)) invalid
        | Ret.error e ↦ elim e [
          | ApiCode.missing_key ↦ revert (ApiError.user missing)
          | ApiCode.missing_argument ↦ revert_with f ApiCode.missing_argument
          | ApiCode.value_not_found ↦ revert_with f ApiCode.value_not_found
          | ApiCode.code n ↦ revert_with f (ApiCode.code n)
        ]
      ]

  -- `named_uref_exists`
  unfoldable pub key_exists : String → Result Bool
  key_exists name = do
    name_bytes ← to_ptr (f.name_to_bytes name)
    elim (f.casper_get_key name_bytes f.max_serialized_length) [
      | Ret.success found ↦ ok true
      | Ret.error e ↦ ok false
    ]

  -- `read_host_buffer_into`, on a buffer of the given size: the buffer and the number of bytes written
  unfoldable pub read_host_buffer_into : Bytes → ℕ → Ret (Bytes × ℕ)
  read_host_buffer_into key_bytes size = f.casper_read_host_buffer key_bytes size

  -- `read_host_buffer`, which reads into an empty buffer too
  unfoldable pub read_host_buffer : Bytes → ℕ → Ret Bytes
  read_host_buffer key_bytes size = elim (read_host_buffer_into key_bytes size) [
    | Ret.success (dest, bytes_written) ↦ Ret.success dest
    | Ret.error e ↦ Ret.error e
  ]

  module _ {A : Type 0} (deserialize : Bytes → BytesResult A) where
    -- `read_with_user_errors`, once the size is known
    unfoldable pub fetch_sized_value : Bytes → ℕ → NftCoreError → Result A
    unfolding read_host_buffer
    fetch_sized_value key_bytes value_size invalid = elim (read_host_buffer key_bytes value_size) [
      | Ret.success value_bytes ↦ deserialized_or_revert (deserialize value_bytes) invalid
      | Ret.error e ↦ revert_with f e
    ]

    unfoldable pub fetch_value : ℕ → NftCoreError → NftCoreError → Result A
    unfolding fetch_sized_value
    fetch_value uref missing invalid = do
      key_bytes ← to_ptr (f.uref_to_bytes uref)
      elim (f.casper_read_value key_bytes) [
        | Ret.success value_size ↦ fetch_sized_value key_bytes value_size invalid
        | Ret.error e ↦ elim e [
          | ApiCode.value_not_found ↦ revert (ApiError.user missing)
          | ApiCode.missing_argument ↦ revert_with f ApiCode.missing_argument
          | ApiCode.missing_key ↦ revert_with f ApiCode.missing_key
          | ApiCode.code n ↦ revert_with f (ApiCode.code n)
        ]
      ]
