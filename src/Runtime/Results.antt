-- ===== src/Runtime/Results.antt =====
-- How a call ends: with a value, with a revert, or with a panic. A revert leaves no state behind.
use Prim.Native.Nat.{ℕ}
use mathlib.Core.Path.{◌≡◌, refl, ap}
use mathlib.Core.Bool.{Bool, true, false}
use mathlib.Core.Option.{Option, none, some}
use devxdao_m.Contract.Error.{NftCoreError}

-- `ApiError`: the contract's own codes, those of casper_contract that it can meet, and the rest.
pub data ApiError : Type 0 where
  user : NftCoreError → ApiError
  no_value : ApiError
  missing_argument : ApiError
  invalid_argument : ApiError
  decoding : ApiError
  host_error : ℕ → ApiError

pub data Result {ℓ} (A : Type ℓ) : Type ℓ where
  ok : A → Result A
  revert : ApiError → Result A
  panic : Result A

-- `core::result::Result<A, NFTCoreError>`
pub data Try {ℓ} (A : Type ℓ) : Type ℓ where
  success : A → Try A
  failure : NftCoreError → Try A

infixl 5 ◌>>=◌ ◌>>◌
abbrev pub ◌>>=◌ {ℓ κ} : {A : Type ℓ} {B : Type κ} → Result A → (A → Result B) → Result B
ok a >>= f = f a
revert e >>= f = revert e
panic >>= f = panic

abbrev pub ◌>>◌ {ℓ} : {B : Type ℓ} → Result (Unit {0}) → Result B → Result B
m >> k = m >>= λ _. k

-- `if c { runtime::revert(e) }`
abbrev pub revert_if : Bool → NftCoreError → Result (Unit {0})
revert_if true e = revert (ApiError.user e)
revert_if false e = ok tt

-- `unwrap_or_revert` on a `Result`, on an `Option` with and without an error, and `unwrap`
abbrev pub unwrap_or_revert {ℓ} : {A : Type ℓ} → Try A → Result A
unwrap_or_revert (success a) = ok a
unwrap_or_revert (failure e) = revert (ApiError.user e)

abbrev pub unwrap_or_revert_with {ℓ} : {A : Type ℓ} → Option A → NftCoreError → Result A
unwrap_or_revert_with none e = revert (ApiError.user e)
unwrap_or_revert_with (some a) e = ok a

abbrev pub some_or_revert {ℓ} : {A : Type ℓ} → Option A → Result A
some_or_revert none = revert ApiError.no_value
some_or_revert (some a) = ok a

abbrev pub unwrap {ℓ} : {A : Type ℓ} → Option A → Result A
unwrap none = panic
unwrap (some a) = ok a

-- A chain of calls that succeeds is taken apart: its first call succeeded, and so did the rest.
pub >>=-elim {ℓ κ μ} :
    {A : Type ℓ} {B : Type κ} {C : Type μ} (call : Result A) (rest : A → Result B) {answer : B}
    → (call >>= rest) ≡ ok answer
    → ((x : A) → call ≡ ok x → rest x ≡ ok answer → C)
    → C
>>=-elim (ok x) rest p k = k x refl p
>>=-elim (revert error) rest p k = cc
>>=-elim panic rest p k = cc

pub >>=-eq-ok {ℓ κ} :
    {A : Type ℓ} {B : Type κ} (call : Result A) (rest : A → Result B) {answer : B}
    → (call >>= rest) ≡ ok answer
    → (x : A) × (call ≡ ok x) × (rest x ≡ ok answer)
>>=-eq-ok call rest p = >>=-elim call rest p λ x q r. (x, q, r)

pub revert_if-eq-ok :
    (b : Bool) (e : NftCoreError) {u : Unit {0}} → revert_if b e ≡ ok u → b ≡ false
revert_if-eq-ok true e h = cc
revert_if-eq-ok false e h = refl

pub ok-injective {ℓ} : {A : Type ℓ} {a b : A} → ok a ≡ ok b → a ≡ b
ok-injective h = cc

-- Two answers of one computation.
pub ok_unique {ℓ} : {A : Type ℓ} (m : Result A) {a b : A} → m ≡ ok a → m ≡ ok b → a ≡ b
ok_unique m p q = cc

-- The state that a call with a receipt leaves.
pub ok-fst {ℓ κ} :
    {A : Type ℓ} {B : Type κ} {a a' : A} {b b' : B}
    → ◌≡◌ {A = Result (A × B)} (ok (a, b)) (ok (a', b'))
    → a ≡ a'
ok-fst h = ap (λ t. t.0) (ok-injective h)

pub unwrap-eq-ok {ℓ} : {A : Type ℓ} (o : Option A) {a : A} → unwrap o ≡ ok a → o ≡ some a
unwrap-eq-ok none h = cc
unwrap-eq-ok (some a) h = ap some (ok-injective h)

pub >>=_assoc {ℓ κ μ} :
    {A : Type ℓ} {B : Type κ} {C : Type μ} (m : Result A) (f : A → Result B) (g : B → Result C)
    → ((m >>= f) >>= g) ≡ (m >>= λ a. f a >>= g)
>>=_assoc (ok a) f g = refl
>>=_assoc (revert e) f g = refl
>>=_assoc panic f g = refl
