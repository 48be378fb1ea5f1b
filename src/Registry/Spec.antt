-- ===== src/Registry/Spec.antt =====
-- A registry of numbered tokens: who owns which, and which are burnt.
use devxdao_m.Common.{ℕ, suc, ◌≡◌, ◌≢◌, Bool, true, false, Option, some}
use devxdao_m.Runtime.{Key}

pub record Registry : Type 0 where
  pub minted : ℕ
  pub owner : ℕ → Option Key
  pub is_burnt : ℕ → Bool

-- The events of a registry: the next token is given to an owner; a live token goes from its owner to
-- another; a live token is burnt.
pub data Event (v w : Registry) : Type 0 where
  given_out :
      (to : Key)
      → w.minted ≡ suc v.minted
      → w.owner v.minted ≡ some to
      → ((i : ℕ) → i ≢ v.minted → w.owner i ≡ v.owner i)
      → ((i : ℕ) → w.is_burnt i ≡ v.is_burnt i)
      → Event v w
  handed_over :
      (i : ℕ) (from to : Key)
      → v.owner i ≡ some from
      → v.is_burnt i ≡ false
      → w.owner i ≡ some to
      → w.minted ≡ v.minted
      → ((j : ℕ) → j ≢ i → w.owner j ≡ v.owner j)
      → ((j : ℕ) → w.is_burnt j ≡ v.is_burnt j)
      → Event v w
  destroyed :
      (i : ℕ) (by : Key)
      → v.owner i ≡ some by
      → v.is_burnt i ≡ false
      → w.is_burnt i ≡ true
      → w.minted ≡ v.minted
      → ((j : ℕ) → w.owner j ≡ v.owner j)
      → ((j : ℕ) → j ≢ i → w.is_burnt j ≡ v.is_burnt j)
      → Event v w

pub data Events (v : Registry) : Registry → Type 0 where
  start : Events v v
  further : {w u : Registry} → Events v w → Event w u → Events v u
