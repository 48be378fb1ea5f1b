-- ===== src/Owned/History.antt =====
-- The lists of owned tokens and sequences of calls (casper/contract/src/main.rs).
use devxdao_m.Common.{ℕ, ◌^◌, ◌<◌, ◌≡◌, refl, []}
use devxdao_m.Runtime.{Host, Env, ok, ok_unique}
use devxdao_m.Contract.Modes.{NftIdentifierMode}
use devxdao_m.Contract.State.{State}
use devxdao_m.Contract.Init.{InitArgs, init, init_args}
use devxdao_m.Contract.Install.{installed}
use devxdao_m.Ledger.Defs.{Ledger, deployed}
use devxdao_m.Ledger.Init.{initial, init-installed}
use devxdao_m.Ledger.Burn.{Burns, burnt, burn-Burns}
use devxdao_m.Balances.Defs.{IsConsistent}
use devxdao_m.Balances.Init.{initial-IsConsistent, admin-IsConsistent}
use devxdao_m.Contract.Burn.{burn}
use devxdao_m.Contract.Utils.Tokens.{TokenIdentifier}
use devxdao_m.Balances.Burn.{burnt-IsConsistent, ordinal_token}
use devxdao_m.History.Invariant.{IsPreserved, Reach-Stays}
use devxdao_m.History.Steps.{Reach}
use devxdao_m.Owned.Occurrences.{occurrences}
use devxdao_m.Owned.Defs.{IsListed, IsKept, StaysListed}
use devxdao_m.Owned.Mint.{mint-StaysListed}
use devxdao_m.Owned.Transfer.{transfer-StaysListed}

burn-StaysListed :
    (h : Host) (e : Env) (d : Ledger) {s' : State}
    → IsConsistent h d
    → IsListed h d
    → burn h e (deployed d) ≡ ok s'
    → StaysListed h s'
burn-StaysListed h e d {s'} c listed p =
    let b : Burns h e d s' = burn-Burns h e d p in
    let (i, index) = ordinal_token e d.identifier_mode c.ordinal b.named in
    (
      burnt d (TokenIdentifier.index i) b.item_key b.count,
      rw index at b.result,
      (
        burnt-IsConsistent h d i c (rw index at b.owned) (rw index at b.unburnt) b.keyed b.counted,
        listed,
      ),
    )

pub IsKept-IsPreserved : (h : Host) → IsPreserved h (IsKept h)
IsKept-IsPreserved h = record {
  by_administration = λ d allow contracts accounts operator custom cep78 nft721 raw c.
      (admin-IsConsistent h d allow contracts accounts operator custom cep78 nft721 raw c.0, c.1);
  by_mint = λ e d s' r c p. mint-StaysListed h e d c.0 c.1 p;
  by_burn = λ e d s' c p. burn-StaysListed h e d c.0 c.1 p;
  by_transfer = λ e d s' r c p. transfer-StaysListed h e d c.0 c.1 p;
}

pub initial-IsListed : (h : Host) (account : ℕ) (a : InitArgs) → IsListed h (initial account a)
unfolding occurrences
initial-IsListed h account a k = ([], refl, λ i. refl)

-- Install with the ordinal identifier mode and a supply that is a `u64`, and make any calls: in the state
-- reached the list of owned tokens under an item key holds exactly the indices, burnt ones too, of the
-- tokens whose owner has that item key, each once, and the books are consistent.
pub init-StaysListed :
    (h : Host) (e : Env) (account : ℕ) (a : InitArgs) {s s' : State}
    → init_args h e ≡ ok a
    → a.identifier_mode ≡ NftIdentifierMode.ordinal
    → a.total_token_supply < 2 ^ 64
    → init h e (installed account) ≡ ok s
    → Reach h s s'
    → StaysListed h s'
init-StaysListed h e account a p o fits q r =
    Reach-Stays h (IsKept h) (IsKept-IsPreserved h) (initial account a)
      (initial-IsConsistent h account a o fits, initial-IsListed h account a)
      (rw (ok_unique (init h e (installed account)) q (init-installed h e account a p)) at r)
