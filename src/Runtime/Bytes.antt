-- ===== src/Runtime/Bytes.antt =====
-- `casper_types::bytesrepr` as the contract uses it: the traits `ToBytes` and `FromBytes`, the instances
-- that the contract calls, and what the documentation of the traits says of them.
use Prim.Native.Nat.{ℕ, ◌<◌, ◌^◌}
use mathlib.Core.Path.{◌≡◌}
use mathlib.Core.Bool.{Bool, true, false}
use mathlib.Core.List.{List, [], ◌∷◌, ◌++◌}
use devxdao_m.Common.Tests.{ltb, ◌==◌, if◌then◌else◌}
use devxdao_m.Common.Lists.{length}
use devxdao_m.Common.Text.{Text}

abbrev pub Bytes : Type 0
Bytes = List ℕ

-- `Result<A, bytesrepr::Error>`, with the error by its number
pub data BytesResult {ℓ} (A : Type ℓ) : Type ℓ where
  done : A → BytesResult A
  failed : ℕ → BytesResult A

infixl 5 ◌>>=◌
abbrev pub ◌>>=◌ {ℓ κ} :
    {A : Type ℓ} {B : Type κ} → BytesResult A → (A → BytesResult B) → BytesResult B
done a >>= f = f a
failed e >>= f = failed e

-- The methods of `ToBytes` and `FromBytes` at one type.
pub record Codec (A : Type 0) : Type 0 where
  pub to_bytes : A → BytesResult Bytes
  pub serialized_length : A → ℕ
  pub from_bytes : Bytes → BytesResult (A × Bytes)

-- The traits' contract, for the values of `A` that `Fits` admits: what was written is read back with
-- the bytes that follow it left over, and as far as a 32-bit `usize` counts, `serialized_length` is the
-- number of bytes written.
pub record IsLawful {A : Type 0} (Fits : A → Type 0) (c : Codec A) : Type 0 where
  pub from_bytes-to_bytes :
      (a : A) (bytes rest : Bytes)
      → Fits a
      → c.to_bytes a ≡ done bytes
      → c.from_bytes (bytes ++ rest) ≡ done (a, rest)
  pub serialized_length-to_bytes :
      (a : A) (bytes : Bytes)
      → Fits a
      → c.to_bytes a ≡ done bytes
      → length bytes < 2 ^ 32
      → c.serialized_length a ≡ length bytes

-- `Ord for str`, by code points
abbrev pub text_ltb : Text → Text → Bool
text_ltb xs [] = false
text_ltb [] (y ∷ ys) = true
text_ltb (x ∷ xs) (y ∷ ys) = if x == y then text_ltb xs ys else ltb x y

abbrev pub is_below : {V : Type 0} → Text → List (Text × V) → Bool
is_below key [] = true
is_below key ((k, v) ∷ m) = text_ltb key k

-- A list that stands for a `BTreeMap`: its keys ascend.
abbrev pub Ascends : {V : Type 0} → List (Text × V) → Type 0
Ascends [] = Unit
Ascends ((k, v) ∷ m) = (is_below k m ≡ true) × Ascends m

abbrev pub Always : {A : Type 0} → A → Type 0
Always a = Unit

-- The instances and the function of the library that the contract calls.
pub record Bytesrepr : Type 1 where
  pub string : Codec Text
  pub bool : Codec Bool
  pub btree_map : {V : Type 0} → Codec V → Codec (List (Text × V))
  pub allocate_buffer : ℕ → BytesResult Bytes

pub record IsDocumented (b : Bytesrepr) : Type 1 where
  pub string-IsLawful : IsLawful Always b.string
  pub bool-IsLawful : IsLawful Always b.bool
  pub btree_map-IsLawful :
      {V : Type 0} (c : Codec V) → IsLawful Always c → IsLawful Ascends (b.btree_map c)
  -- a buffer is handed out empty
  pub allocate_buffer-empty :
      (size : ℕ) (buffer : Bytes) → b.allocate_buffer size ≡ done buffer → buffer ≡ []
