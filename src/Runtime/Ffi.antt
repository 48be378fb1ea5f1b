-- ===== src/Runtime/Ffi.antt =====
-- The host's functions that the contract calls with buffers (`casper_contract::ext_ffi`). A pointer and a
-- length are the bytes that they stand for, and a buffer that a call fills is part of its answer.
use Prim.Native.Nat.{ℕ}
use Prim.Native.String.{String}
use devxdao_m.Runtime.Results.{ApiError, Result, revert}
use devxdao_m.Runtime.Bytes.{Bytes, BytesResult}

-- The errors of `ApiError` that the contract tells apart, and the others by a number.
pub data ApiCode : Type 0 where
  missing_argument : ApiCode
  missing_key : ApiCode
  value_not_found : ApiCode
  code : ℕ → ApiCode

-- `api_error::result_from` of a return code, with what the call has written to its out parameters
pub data Ret {ℓ} (A : Type ℓ) : Type ℓ where
  success : A → Ret A
  error : ApiCode → Ret A

pub record Ffi : Type 0 where
  pub number : ApiCode → ℕ
  -- `From<bytesrepr::Error> for ApiError`
  pub bytes_number : ℕ → ℕ
  -- `ToBytes` of a name, of a reference, and `Key::max_serialized_length()`
  pub name_to_bytes : String → BytesResult Bytes
  pub uref_to_bytes : ℕ → BytesResult Bytes
  pub max_serialized_length : ℕ
  pub casper_get_named_arg_size : String → Ret ℕ
  -- the buffer of the given size
  pub casper_get_named_arg : String → ℕ → Ret Bytes
  -- the buffer and the number of bytes written to it
  pub casper_get_key : Bytes → ℕ → Ret (Bytes × ℕ)
  -- the size of the value, which waits in the host's buffer
  pub casper_read_value : Bytes → Ret ℕ
  -- the buffer of the given size after that read, and the number of bytes written to it
  pub casper_read_host_buffer : Bytes → ℕ → Ret (Bytes × ℕ)

-- `runtime::revert(e)`
abbrev pub revert_with : {A : Type 0} → Ffi → ApiCode → Result A
revert_with f e = revert (ApiError.host_error (f.number e))
