-- ===== src/Owned/Operators.antt =====
-- The operator of a token that has just been minted (`mint` and `get_approved` of
-- casper/contract/src/main.rs), in an instance that numbers its tokens.
use devxdao_m.Common.{ℕ, ◌^◌, ◌≤◌, ◌<◌, ◌≡◌, refl, sym, subst, ap, ◌∙◌, none, arith, unwrap_or}
use devxdao_m.Runtime.{Arg, Host, Env, ok, ok_unique}
use devxdao_m.Contract.Modes.{NftIdentifierMode}
use devxdao_m.Contract.State.{State}
use devxdao_m.Contract.Constants.{arg_token_id}
use devxdao_m.Contract.Init.{InitArgs, init, init_args}
use devxdao_m.Contract.Install.{installed}
use devxdao_m.Contract.Mint.{MintReceipt, mint}
use devxdao_m.Contract.Query.{get_approved}
use devxdao_m.Contract.Utils.Reads.{get_number_of_minted_tokens}
use devxdao_m.Ledger.Defs.{Ledger, deployed, stored-injective}
use devxdao_m.Ledger.Init.{initial, init-installed}
use devxdao_m.Ledger.Reads.{get_number_of_minted_tokens-deployed}
use devxdao_m.Ledger.Mint.{Mints, minted, mint-Mints}
use devxdao_m.Balances.Init.{initial-IsConsistent}
use devxdao_m.History.Steps.{Reach, here, next}
use devxdao_m.History.Invariant.{Reach-Stays}
use devxdao_m.Owned.Defs.{IsKept}
use devxdao_m.Owned.History.{initial-IsListed, IsKept-IsPreserved}
use devxdao_m.Owned.Mint.{stored_dict-injective}
use devxdao_m.Owned.Approvals.{get_approved-deployed}
use devxdao_m.Owned.Unapproved.{EmptyFrom, Unapproved, step-Unapproved}

deployed-Unapproved :
    (d d' : Ledger) → ◌≡◌ (deployed d) (deployed d') → Unapproved d → Unapproved d'
deployed-Unapproved d d' same u =
    subst (λ operators. EmptyFrom d'.number_of_minted_tokens operators)
      (stored_dict-injective (ap (λ s. s.operator) same))
      (subst (λ n. EmptyFrom n d.operator)
        (stored-injective (ap (λ s. s.number_of_minted_tokens) same)) u)

-- From an instance that is kept so, any calls.
pub Reach-Unapproved :
    (h : Host) (d : Ledger) {s : State}
    → IsKept h d
    → Unapproved d
    → Reach h (deployed d) s
    → (b : Ledger) × (s ≡ deployed b) × (IsKept h b) × (Unapproved b)
Reach-Unapproved h d kept u here = (d, refl, kept, u)
Reach-Unapproved h d kept u (next r st) =
    let (b, at, kept_b, u_b) = Reach-Unapproved h d kept u r in
    let (c, at_c, kept_c) = Reach-Stays h (IsKept h) (IsKept-IsPreserved h) d kept (next r st) in
    let (c', at_c', u_c) = step-Unapproved h b kept_b u_b st at in
    (c, at_c, kept_c, deployed-Unapproved c' c (sym at_c' ∙ at_c) u_c)

-- Install with the ordinal identifier mode and a supply that is a `u64`, make any calls, and mint: for
-- the token just minted, which has the number of tokens minted before as its index, `get_approved`
-- answers that it has no operator.
pub mint-get_approved :
    (h : Host) (e minting query : Env) (account : ℕ) (a : InitArgs) (i : ℕ) {s s' s'' : State}
    {r : MintReceipt}
    → init_args h e ≡ ok a
    → a.identifier_mode ≡ NftIdentifierMode.ordinal
    → a.total_token_supply < 2 ^ 64
    → init h e (installed account) ≡ ok s
    → Reach h s s'
    → get_number_of_minted_tokens s' ≡ ok i
    → mint h minting s' ≡ ok (s'', r)
    → query.arg_u64 arg_token_id ≡ Arg.given i
    → get_approved query s'' ≡ ok none
mint-get_approved h e minting query account a i {s'' = s''} p o fits q reached next_index made
      given =
    let start = ok_unique (init h e (installed account)) q (init-installed h e account a p) in
    let (d, at, kept, u) =
      Reach-Unapproved h (initial account a)
        (initial-IsConsistent h account a o fits, initial-IsListed h account a) (λ j from. refl)
        (rw start at reached) in
    let index =
      ok_unique (get_number_of_minted_tokens (deployed d)) (get_number_of_minted_tokens-deployed d)
        (rw at at next_index) in
    let m : Mints h minting d s'' = mint-Mints h minting d (rw at at made) in
    let c = kept.0 in
    let upto : d.number_of_minted_tokens ≤ i = omega (arith, index) in
    ap (get_approved query) m.result
    ∙ get_approved-deployed query (minted d m.token m.owner m.metadata m.item_key m.owned) i
        c.ordinal given (omega (arith, index, m.supply_left, c.supply_fits))
        (c.unminted_burnt i upto)
    ∙ ap (λ operator. ok (unwrap_or operator none)) (u i upto)
