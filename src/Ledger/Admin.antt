-- ===== src/Ledger/Admin.antt =====
-- The installer's entry points (casper/contract/src/main.rs) on an initialised instance.
use devxdao_m.Common.{
  ℕ, ◌≡◌, refl, sym, Bool, Option, none, some, List, push, remove, position, arith, ◌==◌,
}
use devxdao_m.Runtime.{
  Key, Env, Arg, ok, >>=-elim, ok-injective, unwrap, unwrap-eq-ok, unwrap_or_revert_with,
}
use devxdao_m.Contract.Constants.{arg_allow_minting, arg_contract_whitelist, arg_account_whitelist}
use devxdao_m.Contract.Error.{
  missing_allow_minting, missing_contract_white_list, missing_account_white_list,
  invalid_account_whitelist, invalid_key,
}
use devxdao_m.Contract.Modes.{WhitelistMode}
use devxdao_m.Contract.State.{State}
use devxdao_m.Contract.Utils.Reads.{into_account}
use devxdao_m.Contract.Utils.Args.{get_required_arg, get_optional_named_arg_with_user_errors}
use devxdao_m.Contract.Utils.Caller.{enforce_only_contract_creator_can_invoke}
use devxdao_m.Contract.Admin.{
  set_allow_minting, write_contract_whitelist, set_contract_whitelist, set_variables,
  add_to_account_whitelist, remove_from_account_whitelist,
}
use devxdao_m.Ledger.Defs.{Ledger, deployed}
use devxdao_m.Ledger.Modes.{whitelist_mode_try_from-as_u8}
use devxdao_m.Ledger.Checks.{enforce_only_contract_creator_can_invoke-eq-ok}
use devxdao_m.Ledger.Transfer.{get_required_arg-eq-ok}

set_allow_minting-deployed :
    (o : Option Bool) (d : Ledger) {s' : State}
    → set_allow_minting o (deployed d) ≡ ok s'
    → (b : Bool) × (s' ≡ deployed (record d { allow_minting = b }))
unfolding set_allow_minting
set_allow_minting-deployed none d p = (d.allow_minting, sym (ok-injective p))
set_allow_minting-deployed (some b) d p = (b, sym (ok-injective p))

write_contract_whitelist-deployed :
    (m : WhitelistMode) (l : List ℕ) (d : Ledger) {s' : State}
    → write_contract_whitelist m l (deployed d) ≡ ok s'
    → (m ≡ WhitelistMode.unlocked) × (s' ≡ deployed (record d { contract_whitelist = l }))
unfolding write_contract_whitelist
write_contract_whitelist-deployed WhitelistMode.unlocked l d p = (refl, sym (ok-injective p))
write_contract_whitelist-deployed WhitelistMode.locked l d p = cc

set_contract_whitelist-deployed :
    (o : Option (List ℕ)) (d : Ledger) {s' : State}
    → set_contract_whitelist o (deployed d) ≡ ok s'
    → (l : List ℕ) × (d.whitelist_mode ≡ WhitelistMode.locked → l ≡ d.contract_whitelist)
      × (s' ≡ deployed (record d { contract_whitelist = l }))
unfolding set_contract_whitelist
set_contract_whitelist-deployed none d p = (d.contract_whitelist, λ k. refl, sym (ok-injective p))
set_contract_whitelist-deployed (some l) d p =
    let (unlocked, written) =
      write_contract_whitelist-deployed d.whitelist_mode l d
        (rw (whitelist_mode_try_from-as_u8 d.whitelist_mode) at p) in
    (l, λ k. ground (arith, unlocked, k), written)

-- `set_variables` is the installer's, and changes `allow_minting` and, unless it is locked, the
-- contract whitelist.
pub set_variables-eq-ok :
    (e : Env) (d : Ledger) {s' : State}
    → set_variables e (deployed d) ≡ ok s'
    → (b : Bool) × (l : List ℕ) × (e.caller ≡ d.installer)
      × (d.whitelist_mode ≡ WhitelistMode.locked → l ≡ d.contract_whitelist)
      × (s' ≡ deployed (record d { allow_minting = b; contract_whitelist = l }))
unfolding set_variables
set_variables-eq-ok e d p0 =
    >>=-elim (enforce_only_contract_creator_can_invoke e (deployed d)) _ p0 λ u q1 p1.
      >>=-elim
        (get_optional_named_arg_with_user_errors (e.arg_option_bool arg_allow_minting)
          missing_allow_minting)
        _ p1
        λ o q2 p2. >>=-elim (set_allow_minting o (deployed d)) _ p2 λ s1 q3 p3.
          >>=-elim
            (get_optional_named_arg_with_user_errors (e.arg_option_hashes arg_contract_whitelist)
              missing_contract_white_list)
            _ p3
            λ w q4 p4.
              let (b, written) = set_allow_minting-deployed o d q3 in
              let (l, locked, result) =
                set_contract_whitelist-deployed w (record d { allow_minting = b })
                  (rw written at p4) in
              (b, l, enforce_only_contract_creator_can_invoke-eq-ok d e q1, locked, result)

pub add_to_account_whitelist-eq-ok :
    (e : Env) (d : Ledger) {s' : State}
    → add_to_account_whitelist e (deployed d) ≡ ok s'
    → (a : ℕ) × (e.caller ≡ d.installer)
      × (e.arg_key arg_account_whitelist ≡ Arg.given (Key.account a))
      × (s' ≡ deployed (record d { account_whitelist = push d.account_whitelist a }))
unfolding add_to_account_whitelist
add_to_account_whitelist-eq-ok e d p0 =
    >>=-elim (enforce_only_contract_creator_can_invoke e (deployed d)) _ p0 λ u q1 p1.
      >>=-elim
        (get_required_arg (e.arg_key arg_account_whitelist) missing_account_white_list
          invalid_account_whitelist)
        _ p1
        λ key q2 p2. >>=-elim (unwrap_or_revert_with (into_account key) invalid_key) _ p2 λ a q3 p3.
          let is_account : key ≡ Key.account a = ground arith in
          (
            a,
            enforce_only_contract_creator_can_invoke-eq-ok d e q1,
            rw is_account at (
                get_required_arg-eq-ok (e.arg_key arg_account_whitelist) missing_account_white_list
                  invalid_account_whitelist q2),
            sym (ok-injective p3),
          )

pub remove_from_account_whitelist-eq-ok :
    (e : Env) (d : Ledger) {s' : State}
    → remove_from_account_whitelist e (deployed d) ≡ ok s'
    → (a : ℕ) × (i : ℕ) × (e.caller ≡ d.installer)
      × (e.arg_key arg_account_whitelist ≡ Arg.given (Key.account a))
      × (position (λ item. item == a) d.account_whitelist ≡ some i)
      × (s' ≡ deployed (record d { account_whitelist = remove i d.account_whitelist }))
unfolding remove_from_account_whitelist
remove_from_account_whitelist-eq-ok e d p0 =
    >>=-elim (enforce_only_contract_creator_can_invoke e (deployed d)) _ p0 λ u q1 p1.
      >>=-elim
        (get_required_arg (e.arg_key arg_account_whitelist) missing_account_white_list
          invalid_account_whitelist)
        _ p1
        λ key q2 p2. >>=-elim (unwrap_or_revert_with (into_account key) invalid_key) _ p2 λ a q3 p3.
          >>=-elim (unwrap (position (λ item. item == a) d.account_whitelist)) _ p3 λ i q4 p4.
            let is_account : key ≡ Key.account a = ground arith in
            (
              a,
              i,
              enforce_only_contract_creator_can_invoke-eq-ok d e q1,
              rw is_account at (
                  get_required_arg-eq-ok (e.arg_key arg_account_whitelist)
                    missing_account_white_list invalid_account_whitelist q2),
              unwrap-eq-ok (position (λ item. item == a) d.account_whitelist) q4,
              sym (ok-injective p4),
            )
