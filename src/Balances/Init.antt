-- ===== src/Balances/Init.antt =====
-- The books of a fresh instance (casper/contract/src/main.rs, `init`), and those of an instance whose
-- other fields change.
use devxdao_m.Common.{ℕ, ◌^◌, ◌<◌, ◌≡◌, refl, Bool, Option, List, arith}
use devxdao_m.Common.Text.{Text}
use devxdao_m.Common.Count.{count_below}
use devxdao_m.Runtime.{Key, Host, Dict}
use devxdao_m.Contract.Modes.{NftIdentifierMode}
use devxdao_m.Contract.Init.{InitArgs}
use devxdao_m.Ledger.Defs.{Ledger}
use devxdao_m.Ledger.Init.{initial}
use devxdao_m.Balances.Defs.{IsConsistent}

-- The books of an instance that numbers its tokens are consistent at the start.
pub initial-IsConsistent :
    (h : Host) (account : ℕ) (a : InitArgs)
    → a.identifier_mode ≡ NftIdentifierMode.ordinal
    → a.total_token_supply < 2 ^ 64
    → IsConsistent h (initial account a)
unfolding count_below
initial-IsConsistent h account a o fits = record {
  ordinal = o;
  supply_fits = fits;
  within_supply = omega arith;
  unminted_owner = λ i ge. refl;
  minted_owner = λ i l. elim l [ ];
  unminted_burnt = λ i ge. refl;
  balances = λ k. refl;
}

-- The fields outside the books may change.
pub admin-IsConsistent :
    (h : Host) (d : Ledger) (allow : Bool) (contracts accounts : List ℕ)
    (operator : Dict (Option Key)) (custom cep78 nft721 raw : Dict Text)
    → IsConsistent h d
    → IsConsistent h (record d {
      allow_minting = allow;
      contract_whitelist = contracts;
      account_whitelist = accounts;
      operator = operator;
      metadata_custom_validated = custom;
      metadata_cep78 = cep78;
      metadata_nft721 = nft721;
      metadata_raw = raw;
    })
admin-IsConsistent h d allow contracts accounts operator custom cep78 nft721 raw c = record {
  ordinal = c.ordinal;
  supply_fits = c.supply_fits;
  within_supply = c.within_supply;
  unminted_owner = c.unminted_owner;
  minted_owner = c.minted_owner;
  unminted_burnt = c.unminted_burnt;
  balances = c.balances;
}
