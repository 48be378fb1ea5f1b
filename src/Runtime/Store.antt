-- ===== src/Runtime/Store.antt =====
-- Named keys, the values behind them, and dictionaries, as the host answers for them.
use Prim.Native.Nat.{ℕ}
use mathlib.Core.Path.{◌≡◌}
use mathlib.Core.Bool.{false}
use mathlib.Core.Option.{Option, none, some}
use native.Mathlib.Omega.{arith}
use devxdao_m.Common.Tests.{if◌then◌else◌}
use devxdao_m.Common.Text.{Text, text_eq, text_eq_refl}
use devxdao_m.Runtime.Results.{ApiError, Result, ok, revert}

-- What `casper_get_key` answers for a name.
pub data NamedKey (A : Type 0) : Type 0 where
  missing : NamedKey A
  failed : ℕ → NamedKey A
  malformed : NamedKey A
  found : A → NamedKey A

-- The key found: a reference to storage, or a key of another variant.
pub data Target (A : Type 0) : Type 0 where
  not_uref : Target A
  uref : A → Target A

-- What `casper_read_value` answers for a reference.
pub data Slot (A : Type 0) : Type 0 where
  not_found : Slot A
  read_error : ℕ → Slot A
  undecodable : Slot A
  holds : A → Slot A

abbrev pub Cell : Type 0 → Type 0
Cell A = NamedKey (Target (Slot A))

abbrev pub Dict : Type 0 → Type 0
Dict A = Text → Option A

abbrev pub DictCell : Type 0 → Type 0
DictCell A = NamedKey (Target (Dict A))

-- `runtime::put_key(NAME, storage::new_uref(value).into())`, and a later `storage::write`
abbrev pub stored : {A : Type 0} → A → Cell A
stored a = found (uref (holds a))

abbrev pub stored_dict : {A : Type 0} → Dict A → DictCell A
stored_dict d = found (uref d)

-- `storage::dictionary_get::<T>` for an item key of at most 128 bytes, which is the most that the host's
-- library accepts, where `decode` reads the entry at the type asked for
abbrev pub dictionary_get : {A V : Type 0} → (V → Option A) → Dict V → Text → Result (Option A)
dictionary_get decode d k = elim (d k) [
  | none ↦ ok none
  | some v ↦ elim (decode v) [ none ↦ revert ApiError.decoding | some a ↦ ok (some a) ]
]

-- `storage::dictionary_put`, for an item key of at most 128 bytes
unfoldable pub dictionary_put : {A : Type 0} → Dict A → Text → A → Dict A
dictionary_put d k v j = if text_eq k j then some v else d j

pub dictionary_put_self :
    {A : Type 0} (d : Dict A) (k : Text) (v : A) → dictionary_put d k v k ≡ some v
unfolding dictionary_put
dictionary_put_self d k v = ground (arith, text_eq_refl k)

pub dictionary_put_ne :
    {A : Type 0} (d : Dict A) (k j : Text) (v : A)
    → text_eq k j ≡ false
    → dictionary_put d k v j ≡ d j
unfolding dictionary_put
dictionary_put_ne d k j v h = ground arith
