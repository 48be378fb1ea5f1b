-- ===== src/Balances/Defs.antt =====
-- When the dictionaries of an instance that numbers its tokens agree with one another.
use devxdao_m.Common.{
  ℕ, ◌^◌, ◌≤◌, ◌<◌, ◌≡◌, Bool, true, false, not, ◌&&◌, Option, none, some, is_some, unwrap_or,
  arith,
}
use native.Mathlib.Decide.{dec_lt}
use devxdao_m.Common.Text.{Text, text_eq}
use devxdao_m.Common.Decimal.{to_string}
use devxdao_m.Common.Count.{count_below}
use devxdao_m.Runtime.{Key, Host, Dict}
use devxdao_m.Contract.Modes.{NftIdentifierMode}
use devxdao_m.Contract.State.{State}
use devxdao_m.Ledger.Defs.{Ledger, deployed}

-- Whether a key's tokens are counted under an item key.
abbrev pub has_item_key : Host → Text → Key → Bool
has_item_key h k (Key.account a) = text_eq (h.account_hash_to_string a) k
has_item_key h k (Key.hash c) = text_eq (h.contract_hash_to_string c) k
has_item_key h k (Key.other o) = false

abbrev pub owner_has_item_key : Host → Text → Option Key → Bool
owner_has_item_key h k none = false
owner_has_item_key h k (some key) = has_item_key h k key

-- Whether token `i` belongs to an owner with the item key and is not burnt.
abbrev pub is_live : Host → Dict Key → Dict (Unit {0}) → Text → ℕ → Bool
is_live h owners burnt k i =
    owner_has_item_key h k (owners (to_string i)) && not (is_some (burnt (to_string i)))

-- How many live tokens are held under an item key.
abbrev pub holding : Host → Ledger → Text → ℕ
holding h d k = count_below d.number_of_minted_tokens (is_live h d.token_owners d.burnt_tokens k)

pub record IsConsistent (h : Host) (d : Ledger) : Type 0 where
  pub ordinal : d.identifier_mode ≡ NftIdentifierMode.ordinal
  pub supply_fits : d.total_token_supply < 2 ^ 64
  pub within_supply : d.number_of_minted_tokens ≤ d.total_token_supply
  pub unminted_owner : (i : ℕ) → d.number_of_minted_tokens ≤ i → d.token_owners (to_string i) ≡ none
  pub minted_owner :
      (i : ℕ) → i < d.number_of_minted_tokens → is_some (d.token_owners (to_string i)) ≡ true
  pub unminted_burnt : (i : ℕ) → d.number_of_minted_tokens ≤ i → d.burnt_tokens (to_string i) ≡ none
  pub balances : (k : Text) → unwrap_or (d.token_counts k) 0 ≡ holding h d k

-- A token with an owner has been minted.
pub owned-lt :
    (h : Host) (d : Ledger) (i : ℕ) {key : Key}
    → IsConsistent h d
    → d.token_owners (to_string i) ≡ some key
    → i < d.number_of_minted_tokens
owned-lt h d i c e = elim (dec_lt i d.number_of_minted_tokens) [
  | yes lt ↦ lt
  | no ge ↦ ground (arith, c.unminted_owner i (omega arith))
]

-- A state is an initialised instance with consistent books.
abbrev pub StaysConsistent : Host → State → Type 0
StaysConsistent h s = (d : Ledger) × (s ≡ deployed d) × IsConsistent h d
