-- ===== src/Registry/Refinement.antt =====
-- The registry that an instance holds, and the calls as its events (casper/contract/src/main.rs).
use devxdao_m.Common.{ℕ, ◌≡◌, refl, ap, is_some, arith}
use devxdao_m.Common.Decimal.{to_string}
use devxdao_m.Runtime.{Host, Env, dictionary_put_self, ok, >>=-elim}
use devxdao_m.Contract.State.{State}
use devxdao_m.Contract.Utils.Tokens.{TokenIdentifier}
use devxdao_m.Contract.Mint.{MintReceipt, mint}
use devxdao_m.Contract.Burn.{burn}
use devxdao_m.Contract.Transfer.{TransferReceipt, plan_transfer, transfer}
use devxdao_m.Ledger.Defs.{Ledger, deployed}
use devxdao_m.Ledger.Mint.{Mints, minted, mint-Mints}
use devxdao_m.Ledger.Burn.{Burns, burnt, burn-Burns}
use devxdao_m.Ledger.Transfer.{
  Plans, plan_transfer-Plans, Executes, execute_transfer-Executes, transferred,
}
use devxdao_m.Balances.Defs.{IsConsistent}
use devxdao_m.Balances.Moves.{put-to_string_ne}
use devxdao_m.Balances.Init.{admin-IsConsistent}
use devxdao_m.Balances.Mint.{ordinal_new_token, minted-IsConsistent}
use devxdao_m.Balances.Burn.{ordinal_token, burnt-IsConsistent}
use devxdao_m.Balances.Transfer.{transferred-IsConsistent}
use devxdao_m.History.Steps.{Reach}
use devxdao_m.History.Invariant.{Stays, IsPreserved, Reach-Stays}
use devxdao_m.Registry.Spec.{Registry, given_out, handed_over, destroyed, Events, start, further}

-- The registry that an instance holds.
abbrev pub registry : Ledger → Registry
registry d = record {
  minted = d.number_of_minted_tokens;
  owner = λ i. d.token_owners (to_string i);
  is_burnt = λ i. is_some (d.burnt_tokens (to_string i));
}

-- The books are consistent, and the registry came from `v` by events.
abbrev pub Came : Host → Registry → Ledger → Type 0
Came h v d = IsConsistent h d × Events v (registry d)

mint-Event :
    (h : Host) (e : Env) (v : Registry) (d : Ledger) {s' : State} {r : MintReceipt}
    → Came h v d
    → mint h e (deployed d) ≡ ok (s', r)
    → Stays (Came h v) s'
mint-Event h e v d {s'} (c, past) p =
    let m : Mints h e d s' = mint-Mints h e d p in
    let n : ℕ = d.number_of_minted_tokens in
    let index = ordinal_new_token e d.identifier_mode n c.ordinal m.named in
    (
      minted d (TokenIdentifier.index n) m.owner m.metadata m.item_key m.owned,
      rw index at m.result,
      (
        minted-IsConsistent h d m.owner m.metadata m.item_key m.owned c m.supply_left m.keyed,
        further past (
            given_out m.owner (omega (arith, c.supply_fits, m.supply_left))
              (dictionary_put_self d.token_owners (to_string n) m.owner)
              (λ i ne. put-to_string_ne d.token_owners n i m.owner ne) (λ i. refl)),
      ),
    )

burn-Event :
    (h : Host) (e : Env) (v : Registry) (d : Ledger) {s' : State}
    → Came h v d
    → burn h e (deployed d) ≡ ok s'
    → Stays (Came h v) s'
burn-Event h e v d {s'} (c, past) p =
    let b : Burns h e d s' = burn-Burns h e d p in
    let (i, index) = ordinal_token e d.identifier_mode c.ordinal b.named in
    let owned = rw index at b.owned in
    let unburnt = rw index at b.unburnt in
    (
      burnt d (TokenIdentifier.index i) b.item_key b.count,
      rw index at b.result,
      (
        burnt-IsConsistent h d i c owned unburnt b.keyed b.counted,
        further past (
            destroyed i b.owner owned (ap is_some unburnt)
              (ap is_some (dictionary_put_self d.burnt_tokens (to_string i) tt)) refl (λ j. refl)
              (λ j ne. ap is_some (put-to_string_ne d.burnt_tokens i j tt ne))),
      ),
    )

transfer-Event :
    (h : Host) (e : Env) (v : Registry) (d : Ledger) {s' : State} {r : TransferReceipt}
    → Came h v d
    → transfer h e (deployed d) ≡ ok (s', r)
    → Stays (Came h v) s'
unfolding transfer
transfer-Event h e v d {s'} (c, past) p0 = >>=-elim (plan_transfer e (deployed d)) _ p0 λ p q p1.
    let a : Plans e d p = plan_transfer-Plans e d q in
    let x : Executes h d p s' = execute_transfer-Executes h d p p1 in
    let (i, index) = ordinal_token e d.identifier_mode c.ordinal a.named in
    let owned = rw index at a.owned_by in
    let unburnt = rw index at a.unburnt in
    (
      transferred d (TokenIdentifier.index i) p.target_owner_key x.from_item x.target_item x.count
          x.removed x.received,
      rw index at x.result,
      (
        transferred-IsConsistent h d i p.target_owner_key x.removed x.received c owned unburnt
            x.keyed_from x.keyed_target x.counted,
        further past (
            handed_over i p.from_token_owner_key p.target_owner_key owned (ap is_some unburnt)
              (dictionary_put_self d.token_owners (to_string i) p.target_owner_key) refl
              (λ j ne. put-to_string_ne d.token_owners i j p.target_owner_key ne) (λ j. refl)),
      ),
    )

Came-IsPreserved : (h : Host) (v : Registry) → IsPreserved h (Came h v)
Came-IsPreserved h v = record {
  by_administration = λ d allow contracts accounts operator custom cep78 nft721 raw c.
      (admin-IsConsistent h d allow contracts accounts operator custom cep78 nft721 raw c.0, c.1);
  by_mint = λ e d s' r c p. mint-Event h e v d c p;
  by_burn = λ e d s' c p. burn-Event h e v d c p;
  by_transfer = λ e d s' r c p. transfer-Event h e v d c p;
}

-- Whatever calls are made on an instance with consistent books, the state reached has consistent books
-- and holds a registry that comes from the first by events alone: tokens are given out in order, and only
-- live tokens are handed over, from their owners, or burnt.
pub Reach-Events :
    (h : Host) (d : Ledger) {s : State}
    → IsConsistent h d
    → Reach h (deployed d) s
    → (d' : Ledger) × (s ≡ deployed d') × (Came h (registry d) d')
Reach-Events h d c r =
    Reach-Stays h (Came h (registry d)) (Came-IsPreserved h (registry d)) d (c, start) r
