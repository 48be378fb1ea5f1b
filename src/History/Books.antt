-- ===== src/History/Books.antt =====
-- The books and sequences of calls (casper/contract/src/main.rs).
use devxdao_m.Common.{ℕ, ◌^◌, ◌<◌, ◌≡◌}
use devxdao_m.Runtime.{Host, Env, ok, ok_unique}
use devxdao_m.Contract.Modes.{NftIdentifierMode}
use devxdao_m.Contract.State.{State}
use devxdao_m.Contract.Init.{InitArgs, init, init_args}
use devxdao_m.Contract.Install.{installed}
use devxdao_m.Ledger.Init.{initial, init-installed}
use devxdao_m.Balances.Defs.{IsConsistent, StaysConsistent}
use devxdao_m.Balances.Init.{initial-IsConsistent, admin-IsConsistent}
use devxdao_m.Balances.Mint.{mint-IsConsistent}
use devxdao_m.Balances.Burn.{burn-IsConsistent}
use devxdao_m.Balances.Transfer.{transfer-IsConsistent}
use devxdao_m.History.Invariant.{IsPreserved, Reach-Stays}
use devxdao_m.History.Steps.{Reach}

IsConsistent-IsPreserved : (h : Host) → IsPreserved h (IsConsistent h)
IsConsistent-IsPreserved h = record {
  by_administration = λ d allow contracts accounts operator custom cep78 nft721 raw c.
      admin-IsConsistent h d allow contracts accounts operator custom cep78 nft721 raw c;
  by_mint = λ e d s' r c p. mint-IsConsistent h e d c p;
  by_burn = λ e d s' c p. burn-IsConsistent h e d c p;
  by_transfer = λ e d s' r c p. transfer-IsConsistent h e d c p;
}

-- Install with the ordinal identifier mode and a supply that is a `u64`, and make any calls: the books
-- of the state reached are consistent. So the supply is never exceeded, exactly the indices below the
-- number of minted tokens have owners, and every count is the number of live tokens of its item key.
pub init-StaysConsistent :
    (h : Host) (e : Env) (account : ℕ) (a : InitArgs) {s s' : State}
    → init_args h e ≡ ok a
    → a.identifier_mode ≡ NftIdentifierMode.ordinal
    → a.total_token_supply < 2 ^ 64
    → init h e (installed account) ≡ ok s
    → Reach h s s'
    → StaysConsistent h s'
init-StaysConsistent h e account a p o fits q r =
    Reach-Stays h (IsConsistent h) (IsConsistent-IsPreserved h) (initial account a)
      (initial-IsConsistent h account a o fits)
      (rw (ok_unique (init h e (installed account)) q (init-installed h e account a p)) at r)
