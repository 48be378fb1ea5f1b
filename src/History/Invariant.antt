-- ===== src/History/Invariant.antt =====
-- Invariants of an initialised instance under sequences of calls (casper/contract/src/main.rs): the
-- obligations are those of `mint`, `burn` and `transfer`, and of any change of the other fields.
use devxdao_m.Common.{ℕ, Bool, Option, List, ◌≡◌, refl, arith}
use devxdao_m.Common.Text.{Text}
use devxdao_m.Runtime.{Key, Host, Env, Dict, ok}
use devxdao_m.Contract.State.{State}
use devxdao_m.Contract.Mint.{MintReceipt, mint}
use devxdao_m.Contract.Burn.{burn}
use devxdao_m.Contract.Transfer.{TransferReceipt, transfer}
use devxdao_m.Ledger.Defs.{Ledger, deployed}
use devxdao_m.Ledger.Init.{init-deployed}
use devxdao_m.Ledger.Admin.{
  set_variables-eq-ok, add_to_account_whitelist-eq-ok, remove_from_account_whitelist-eq-ok,
}
use devxdao_m.Ledger.Approve.{approve-Approves, set_approval_for_all-ApprovesAll}
use devxdao_m.Ledger.Describe.{set_token_metadata-Describes}
use devxdao_m.History.Steps.{
  Step, Reach, initialises, sets_variables, adds, removes, mints, burns, approves, approves_all,
  transfers, describes, here, next,
}

-- A state is an initialised instance of which `P` holds.
abbrev pub Stays : (Ledger → Type 0) → State → Type 0
Stays P s = (d : Ledger) × (s ≡ deployed d) × P d

-- The fields that only the calls outside the books write.
abbrev pub readministered :
    Ledger
    → Bool
    → List ℕ
    → List ℕ
    → Dict (Option Key)
    → Dict Text
    → Dict Text
    → Dict Text
    → Dict Text
    → Ledger
readministered d allow contracts accounts operator custom cep78 nft721 raw = record d {
  allow_minting = allow;
  contract_whitelist = contracts;
  account_whitelist = accounts;
  operator = operator;
  metadata_custom_validated = custom;
  metadata_cep78 = cep78;
  metadata_nft721 = nft721;
  metadata_raw = raw;
}

pub record IsPreserved (h : Host) (P : Ledger → Type 0) : Type 0 where
  pub by_administration :
      (d : Ledger) (allow : Bool) (contracts accounts : List ℕ) (operator : Dict (Option Key))
      (custom cep78 nft721 raw : Dict Text)
      → P d
      → P (readministered d allow contracts accounts operator custom cep78 nft721 raw)
  pub by_mint :
      (e : Env) (d : Ledger) (s' : State) (r : MintReceipt)
      → P d
      → mint h e (deployed d) ≡ ok (s', r)
      → Stays P s'
  pub by_burn :
      (e : Env) (d : Ledger) (s' : State) → P d → burn h e (deployed d) ≡ ok s' → Stays P s'
  pub by_transfer :
      (e : Env) (d : Ledger) (s' : State) (r : TransferReceipt)
      → P d
      → transfer h e (deployed d) ≡ ok (s', r)
      → Stays P s'

module _ (h : Host) (P : Ledger → Type 0) (k : IsPreserved h P) where
  step-Stays : (d : Ledger) {s s' : State} → P d → Step h s s' → s ≡ deployed d → Stays P s'
  step-Stays d c (initialises e p) at = ground (arith, init-deployed h e d, rw at at p)
  step-Stays d c (sets_variables e p) at =
      let (b, l, by, locked, r) = set_variables-eq-ok e d (rw at at p) in
      (
        _,
        r,
        k.by_administration d b l d.account_whitelist d.operator d.metadata_custom_validated
            d.metadata_cep78 d.metadata_nft721 d.metadata_raw c,
      )
  step-Stays d c (adds e p) at =
      let (a, by, g, r) = add_to_account_whitelist-eq-ok e d (rw at at p) in
      (
        _,
        r,
        k.by_administration d d.allow_minting d.contract_whitelist _ d.operator
            d.metadata_custom_validated d.metadata_cep78 d.metadata_nft721 d.metadata_raw c,
      )
  step-Stays d c (removes e p) at =
      let (a, i, by, g, f, r) = remove_from_account_whitelist-eq-ok e d (rw at at p) in
      (
        _,
        r,
        k.by_administration d d.allow_minting d.contract_whitelist _ d.operator
            d.metadata_custom_validated d.metadata_cep78 d.metadata_nft721 d.metadata_raw c,
      )
  step-Stays d c (mints {s' = s'} {r = r} e p) at = k.by_mint e d s' r c (rw at at p)
  step-Stays d c (burns {s' = s'} e p) at = k.by_burn e d s' c (rw at at p)
  step-Stays d c (approves e p) at =
      let a = approve-Approves e d (rw at at p) in
      (
        _,
        a.result,
        k.by_administration d d.allow_minting d.contract_whitelist d.account_whitelist _
            d.metadata_custom_validated d.metadata_cep78 d.metadata_nft721 d.metadata_raw c,
      )
  step-Stays d c (approves_all e p) at =
      let a = set_approval_for_all-ApprovesAll h e d (rw at at p) in
      (
        _,
        a.result,
        k.by_administration d d.allow_minting d.contract_whitelist d.account_whitelist _
            d.metadata_custom_validated d.metadata_cep78 d.metadata_nft721 d.metadata_raw c,
      )
  step-Stays d c (transfers {s' = s'} {r = r} e p) at = k.by_transfer e d s' r c (rw at at p)
  step-Stays d c (describes e p) at =
      let m = set_token_metadata-Describes h e d (rw at at p) in
      (
        _,
        m.result,
        k.by_administration d d.allow_minting d.contract_whitelist d.account_whitelist d.operator _
            _ _ _ c,
      )

  pub Reach-Stays : (d : Ledger) {s : State} → P d → Reach h (deployed d) s → Stays P s
  Reach-Stays d c here = (d, refl, c)
  Reach-Stays d c (next r st) = let (b, at, c') = Reach-Stays d c r in step-Stays b c' st at
