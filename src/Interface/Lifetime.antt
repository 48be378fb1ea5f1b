-- ===== src/Interface/Lifetime.antt =====
-- From the session `call` on, through any calls of the contract (casper/contract/src/main.rs).
use devxdao_m.Common.{ℕ, ◌≡◌, ◌^◌, ◌<◌, sym, ap, ◌∙◌}
use devxdao_m.Runtime.{Host, Env, stored, ok, ok_unique}
use devxdao_m.Runtime.Contracts.{NamedKeys, ContractApi, IsDocumented}
use devxdao_m.Contract.Modes.{NftIdentifierMode}
use devxdao_m.Contract.State.{State}
use devxdao_m.Contract.Utils.Reads.{get_identifier_mode}
use devxdao_m.Contract.Call.{Installation, call_session}
use devxdao_m.Ledger.Defs.{Ledger, deployed, stored-injective}
use devxdao_m.Ledger.Init.{initial}
use devxdao_m.Ledger.Reads.{get_identifier_mode-deployed}
use devxdao_m.Balances.Init.{initial-IsConsistent}
use devxdao_m.History.Steps.{Reach}
use devxdao_m.History.Config.{Config, Reach-Continues}
use devxdao_m.History.Invariant.{Reach-Stays}
use devxdao_m.Owned.Defs.{IsKept}
use devxdao_m.Owned.History.{initial-IsListed, IsKept-IsPreserved}
use devxdao_m.Rights.Install.{install-Installs}
use devxdao_m.Interface.Call.{call_session-state}

deployed-injective_installer :
    (d d' : Ledger) → deployed d ≡ deployed d' → d.installer ≡ d'.installer
deployed-injective_installer d d' same = cc

-- Install by the session `call`, with the identifier mode and the supply that the state then holds being
-- ordinal and a `u64`, and make any calls: the state reached is an instance whose installer is the
-- account that made the session, whose books are consistent, and whose lists of owned tokens hold
-- exactly the indices whose owner has their item key, each once.
pub call_session-IsKept :
    (api : ContractApi) (e : Env) (account : NamedKeys) (h : Host) (supply : ℕ)
    {r : Installation api.EntryPoints} {s : State}
    → IsDocumented api
    → call_session api h e account ≡ ok r
    → get_identifier_mode r.state ≡ ok NftIdentifierMode.ordinal
    → r.state.total_token_supply ≡ stored supply
    → supply < 2 ^ 64
    → Reach h r.state s
    → (d : Ledger) × (s ≡ deployed d) × (d.installer ≡ e.caller) × (IsKept h d)
call_session-IsKept api e account h supply {r} {s} doc p numbered supplied fits reached =
    let (a, result, exclusive) =
      install-Installs h e r.contract.contract_hash
        (api.to_formatted_string r.contract.package_hash)
        (call_session-state api doc e account h p) in
    let first : Ledger = initial e.caller a in
    let ordinal =
      ok_unique (get_identifier_mode (deployed first)) (get_identifier_mode-deployed first)
        (rw result at numbered) in
    let same = stored-injective (rw result at supplied) in
    let (d, at, kept) =
      Reach-Stays h (IsKept h) (IsKept-IsPreserved h) first
        (initial-IsConsistent h e.caller a ordinal (rw same fits), initial-IsListed h e.caller a)
        (rw result at reached) in
    let (d', at', follows) = Reach-Continues h first (rw result at reached) in
    (
      d,
      at,
      deployed-injective_installer d d' (sym at ∙ at')
          ∙ ap (λ (c : Config). c.installer) follows.same_config,
      kept,
    )
