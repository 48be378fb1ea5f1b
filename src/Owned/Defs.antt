-- ===== src/Owned/Defs.antt =====
-- When the lists of owned tokens agree with the owners.
use devxdao_m.Common.{ℕ, ◌≡◌, Bool, Option, none, some, List, []}
use devxdao_m.Common.Text.{Text}
use devxdao_m.Common.Decimal.{to_string}
use devxdao_m.Common.Count.{bit}
use devxdao_m.Runtime.{Host}
use devxdao_m.Contract.State.{State, OwnedTokens}
use devxdao_m.Ledger.Defs.{Ledger, deployed}
use devxdao_m.Balances.Defs.{IsConsistent, owner_has_item_key}
use devxdao_m.Owned.Occurrences.{occurrences}

-- An entry read as indices; no entry is the empty list.
abbrev pub listed_indices : Option OwnedTokens → Option (List ℕ)
listed_indices none = some []
listed_indices (some (OwnedTokens.indices l)) = some l
listed_indices (some (OwnedTokens.hashes l)) = none

-- An entry that holds exactly the numbers that pass a test, each once.
abbrev pub Lists : Option OwnedTokens → (ℕ → Bool) → Type 0
Lists entry p =
    (l : List ℕ) × (listed_indices entry ≡ some l) × ((i : ℕ) → occurrences i l ≡ bit (p i))

-- Whether token `i`, burnt or not, has an owner with the item key.
abbrev pub is_held : Host → Ledger → Text → ℕ → Bool
is_held h d k i = owner_has_item_key h k (d.token_owners (to_string i))

abbrev pub IsListed : Host → Ledger → Type 0
IsListed h d = (k : Text) → Lists (d.owned_tokens k) (is_held h d k)

-- Consistent books, and lists that agree with the owners.
abbrev pub IsKept : Host → Ledger → Type 0
IsKept h d = IsConsistent h d × IsListed h d

-- A state is an initialised instance that is kept so.
abbrev pub StaysListed : Host → State → Type 0
StaysListed h s = (d : Ledger) × (s ≡ deployed d) × (IsKept h d)
