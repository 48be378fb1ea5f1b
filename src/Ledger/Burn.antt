-- ===== src/Ledger/Burn.antt =====
-- What a burn that succeeds has checked and written (casper/contract/src/main.rs, `burn`).
use devxdao_m.Common.{ℕ, suc, ◌≡◌, sym, none, some}
use devxdao_m.Common.Text.{Text}
use devxdao_m.Runtime.{Key, Host, Env, dictionary_put, ok, >>=-elim, ok-injective, ok_unique}
use devxdao_m.Contract.State.{State}
use devxdao_m.Contract.Utils.Caller.{get_verified_caller, enforce_only_contract_creator_can_invoke}
use devxdao_m.Contract.Utils.Reads.{get_identifier_mode}
use devxdao_m.Contract.Utils.Tokens.{
  TokenIdentifier, get_dictionary_item_key, get_token_identifier_from_runtime_args,
  get_owned_tokens_dictionary_item_key,
}
use devxdao_m.Contract.Counts.{require_unburnt, decrement_count}
use devxdao_m.Contract.Burn.{require_owner, burn}
use devxdao_m.Ledger.Defs.{Ledger, deployed}
use devxdao_m.Ledger.Reads.{get_identifier_mode-deployed}
use devxdao_m.Ledger.Writes.{upsert-as_is, decrement_count-eq-ok}
use devxdao_m.Ledger.Checks.{
  enforce_only_contract_creator_can_invoke-eq-ok, require_unburnt-eq-ok, require_owner-eq-ok,
}

-- The ledger after a burn: the mark is set and one token fewer is counted.
abbrev pub burnt : Ledger → TokenIdentifier → Text → ℕ → Ledger
burnt d t item_key count = record d {
  burnt_tokens = dictionary_put d.burnt_tokens (get_dictionary_item_key t) tt;
  token_counts = dictionary_put d.token_counts item_key count;
}

pub record Burns (h : Host) (e : Env) (d : Ledger) (s' : State) : Type 0 where
  pub token : TokenIdentifier
  pub owner : Key
  pub item_key : Text
  pub count : ℕ
  pub named : get_token_identifier_from_runtime_args e d.identifier_mode ≡ ok token
  pub by_installer : e.caller ≡ d.installer
  pub by_owner : get_verified_caller e (deployed d) ≡ ok owner
  pub owned : d.token_owners (get_dictionary_item_key token) ≡ some owner
  pub unburnt : d.burnt_tokens (get_dictionary_item_key token) ≡ none
  pub keyed : get_owned_tokens_dictionary_item_key h owner ≡ ok item_key
  pub counted : d.token_counts item_key ≡ some (suc count)
  pub result : s' ≡ deployed (burnt d token item_key count)

pub burn-Burns :
    (h : Host) (e : Env) (d : Ledger) {s' : State} → burn h e (deployed d) ≡ ok s' → Burns h e d s'
unfolding burn
burn-Burns h e d p0 =
    >>=-elim (enforce_only_contract_creator_can_invoke e (deployed d)) _ p0 λ u q1 p1.
      >>=-elim (get_identifier_mode (deployed d)) _ p1 λ mode q2 p2.
        >>=-elim (get_token_identifier_from_runtime_args e mode) _ p2 λ t q3 p3.
          >>=-elim (get_verified_caller e (deployed d)) _ p3 λ caller q4 p4.
            >>=-elim (require_owner (deployed d) t caller) _ p4 λ owner q5 p5.
              >>=-elim (require_unburnt (deployed d) t) _ p5 λ u6 q6 p6.
                let p7 = rw (upsert-as_is d.burnt_tokens (get_dictionary_item_key t) tt) at p6 in
                >>=-elim (get_owned_tokens_dictionary_item_key h owner) _ p7 λ k q8 p8.
                  >>=-elim (decrement_count (deployed d).token_counts k) _ p8 λ c q9 p9.
                    let (same_owner, owned) = require_owner-eq-ok d t caller q5 in
                    let (n, counted, written) = decrement_count-eq-ok d.token_counts k q9 in
                    record {
                      token = t;
                      owner = caller;
                      item_key = k;
                      count = n;
                      named =
                          rw
                            (ok_unique (get_identifier_mode (deployed d)) q2
                              (get_identifier_mode-deployed d))
                            at q3;
                      by_installer = enforce_only_contract_creator_can_invoke-eq-ok d e q1;
                      by_owner = q4;
                      owned = owned;
                      unburnt = require_unburnt-eq-ok d t q6;
                      keyed = rw same_owner at q8;
                      counted = counted;
                      result = sym (ok-injective (rw written at p9));
                    }
