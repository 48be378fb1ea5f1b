-- ===== src/Interface/Declared.antt =====
-- Which arguments the functions of the contract read (casper/contract/src/main.rs), against the ones
-- that their entry points declare.
use devxdao_m.Common.{◌≡◌, refl}
use devxdao_m.Runtime.{Host, Env}
use devxdao_m.Contract.State.{State}
use devxdao_m.Contract.Transfer.{transfer}
use devxdao_m.Contract.Query.{balance_of}
use devxdao_m.Contract.EntryPoints.{
  init_contract, set_variables_entry_point, add_to_account_whitelist_entry_point,
  remove_from_account_whitelist_entry_point, mint_entry_point, burn_entry_point,
  transfer_entry_point, approve_entry_point, owner_of_entry_point, balance_of_entry_point,
  get_approved_entry_point, metadata_entry_point, set_approval_for_all_entry_point,
  set_token_metadata_entry_point,
}
use devxdao_m.Contract.Dispatch
use devxdao_m.Interface.Table.{entry_point}
use devxdao_m.Interface.Agree.{
  set_variables-agree, add_to_account_whitelist-agree, remove_from_account_whitelist-agree,
  mint-agree, burn-agree, approve-agree, plan_transfer-agree, owner_of-agree, metadata-agree,
  get_approved-agree, set_token_metadata-agree, AgreeOn, SameCaller,
}

-- The functions whose entry points declare whatever they read: all but `init` and
-- `set_approval_for_all`.
abbrev pub DeclaresAll : Dispatch.Handler → Type 0
DeclaresAll Dispatch.init_handler = ⊥
DeclaresAll Dispatch.set_approval_for_all_handler = ⊥
DeclaresAll _ = Unit

-- Two calls by the same caller through the same stack that pass the same bytes for every argument that
-- the entry point of a function declares have the same result in that function, unless it is `init` or
-- `set_approval_for_all`: no other argument can change it.
pub run-declared :
    (x : Dispatch.Handler) (h : Host) (e e' : Env) (s : State)
    → DeclaresAll x
    → SameCaller e e'
    → AgreeOn e e' (entry_point x).args
    → Dispatch.run x h e s ≡ Dispatch.run x h e' s
unfolding Dispatch.run entry_point init_contract set_variables_entry_point
    add_to_account_whitelist_entry_point remove_from_account_whitelist_entry_point mint_entry_point
    burn_entry_point transfer_entry_point approve_entry_point owner_of_entry_point
    balance_of_entry_point get_approved_entry_point metadata_entry_point
    set_approval_for_all_entry_point set_token_metadata_entry_point transfer balance_of
run-declared Dispatch.init_handler h e e' s declares same agree = absurd declares
run-declared Dispatch.set_approval_for_all_handler h e e' s declares same agree = absurd declares
run-declared Dispatch.set_variables_handler h e e' s declares same (minting, (whitelist, rest)) =
    rw (set_variables-agree e e' s same minting whitelist) refl
run-declared Dispatch.add_to_account_whitelist_handler h e e' s declares same (account, rest) =
    rw (add_to_account_whitelist-agree e e' s same account) refl
run-declared Dispatch.remove_from_account_whitelist_handler h e e' s declares same (account, rest) =
    rw (remove_from_account_whitelist-agree e e' s same account) refl
run-declared Dispatch.mint_handler h e e' s declares same (owner, (meta, (id_hash, rest))) =
    rw (mint-agree e e' h s same owner meta id_hash) refl
run-declared Dispatch.burn_handler h e e' s declares same (id, (token_hash, rest)) =
    rw (burn-agree e e' id token_hash h s same) refl
run-declared Dispatch.approve_handler h e e' s declares same (id, (token_hash, (operator, rest))) =
    rw (approve-agree e e' id token_hash s same operator) refl
run-declared Dispatch.transfer_handler h e e' s declares same
      (id, (token_hash, (source, (target, rest)))) =
    rw (plan_transfer-agree e e' id token_hash s same source target) refl
run-declared Dispatch.balance_of_handler h e e' s declares same (owner, rest) = rw owner.keys refl
run-declared Dispatch.owner_of_handler h e e' s declares same (id, (token_hash, rest)) =
    rw (owner_of-agree e e' id token_hash s) refl
run-declared Dispatch.metadata_handler h e e' s declares same (id, (token_hash, rest)) =
    rw (metadata-agree e e' id token_hash s) refl
run-declared Dispatch.get_approved_handler h e e' s declares same (id, (token_hash, rest)) =
    rw (get_approved-agree e e' id token_hash s) refl
run-declared Dispatch.set_token_metadata_handler h e e' s declares same
      (id, (token_hash, (meta, rest))) =
    rw (set_token_metadata-agree e e' id token_hash h s same meta) refl
