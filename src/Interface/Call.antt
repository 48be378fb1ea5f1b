-- ===== src/Interface/Call.antt =====
-- The installation by the session `call` (casper/contract/src/main.rs): the contract that it creates and
-- the keys that it leaves with the account.
use devxdao_m.Common.{◌≡◌, refl, sym, subst, ap, ◌∙◌, false, some}
use devxdao_m.Common.Text.{Text, text_eq, codes}
use devxdao_m.Runtime.{
  Key, Host, Env, ok, ◌>>=◌, >>=-elim, >>=_assoc, ok-injective, dictionary_put, dictionary_put_self,
  dictionary_put_ne,
}
use devxdao_m.Runtime.Contracts.{NamedKeys, NewContract, ContractApi, IsDocumented}
use devxdao_m.Contract.Constants
use devxdao_m.Contract.EntryPoints.{entry_points}
use devxdao_m.Contract.Install.{install}
use devxdao_m.Contract.Call.{Installation, install_nft_contract, keep_contract, call_session}

module _ (api : ContractApi) (doc : IsDocumented api) (e : Env) (account : NamedKeys) where
  -- The contract that this account installs in this call.
  abbrev pub created : NewContract api.EntryPoints
  created = install_nft_contract api e account

  hash_key-kept :
      keep_contract api created (codes Constants.hash_key_name)
      ≡ some (Key.hash created.package_hash)
  unfolding keep_contract install_nft_contract dictionary_put text_eq
  hash_key-kept = doc.new_contract-hash_name _ _ _ _ account refl

  -- The session is the installation of the contract's state, with the hashes that the host has given.
  pub call_session-install :
      (h : Host)
      → call_session api h e account ≡ (
          install h e created.contract_hash (api.to_formatted_string created.package_hash) >>= λ s.
          ok (record { contract = created; state = s; account_keys = keep_contract api created }))
  unfolding call_session install
  call_session-install h = simp (hash_key-kept, >>=_assoc)

  name_key-kept :
      keep_contract api created (codes Constants.contract_name)
      ≡ some (Key.hash created.contract_hash)
  unfolding keep_contract dictionary_put text_eq
  name_key-kept = refl

  version_key-kept :
      keep_contract api created (codes Constants.contract_version)
      ≡ some (Key.other (api.new_uref created.contract_version))
  unfolding keep_contract dictionary_put text_eq
  version_key-kept = refl

  other_key-kept :
      (name : Text)
      → text_eq (codes Constants.contract_name) name ≡ false
      → text_eq (codes Constants.contract_version) name ≡ false
      → text_eq (codes Constants.hash_key_name) name ≡ false
      → text_eq (codes Constants.access_key_name) name ≡ false
      → keep_contract api created name ≡ account name
  unfolding keep_contract install_nft_contract
  other_key-kept name other_name other_version other_hash other_access =
      dictionary_put_ne _ (codes Constants.contract_version) name _ other_version
      ∙ dictionary_put_ne _ (codes Constants.contract_name) name _ other_name
      ∙ doc.new_contract-others _ _ _ _ account name other_hash other_access

  table-held : created.entry_points ≡ entry_points api
  unfolding install_nft_contract
  table-held = (doc.new_contract-holds _ _ _ _ account).0

  installer-held : created.contract_keys (codes Constants.installer) ≡ some (Key.account e.caller)
  unfolding install_nft_contract
  installer-held =
      ap (λ (keys : NamedKeys). keys (codes Constants.installer))
        (doc.new_contract-holds _ _ _ _ account).1
      ∙ dictionary_put_self _ (codes Constants.installer) _

  -- The state is that of the installation.
  pub call_session-state :
      (h : Host) {r : Installation api.EntryPoints}
      → call_session api h e account ≡ ok r
      → install h e r.contract.contract_hash (api.to_formatted_string r.contract.package_hash)
        ≡ ok r.state
  call_session-state h p0 =
      >>=-elim (install h e created.contract_hash (api.to_formatted_string created.package_hash)) _
        (sym (call_session-install h) ∙ p0)
        λ s q p1.
          subst
            (λ (r : Installation api.EntryPoints).
              install h e r.contract.contract_hash (api.to_formatted_string r.contract.package_hash)
              ≡ ok r.state)
            (ok-injective p1) q

  -- What the session leaves with the account, in the contract and in its state.
  abbrev pub Leaves : Host → Text → Installation api.EntryPoints → Type 0
  Leaves h name r =
      (r.account_keys (codes Constants.contract_name) ≡ some (Key.hash r.contract.contract_hash))
      × (r.account_keys (codes Constants.contract_version)
          ≡ some (Key.other (api.new_uref r.contract.contract_version)))
      × (r.account_keys (codes Constants.hash_key_name) ≡ some (Key.hash r.contract.package_hash))
      × (r.account_keys name ≡ account name)
      × (r.contract.entry_points ≡ entry_points api)
      × (r.contract.contract_keys (codes Constants.installer) ≡ some (Key.account e.caller))
      × (install h e r.contract.contract_hash (api.to_formatted_string r.contract.package_hash)
          ≡ ok r.state)

  -- A session that succeeds leaves with the account the new contract's hash, a reference to its version
  -- and its package's hash under their three names, and every other name but that of the access
  -- reference as it was; the contract has the table of entry points and knows the caller as its
  -- installer; and its state is what the installation leaves, for these hashes.
  pub call_session_effect :
      (h : Host) (name : Text) {r : Installation api.EntryPoints}
      → text_eq (codes Constants.contract_name) name ≡ false
      → text_eq (codes Constants.contract_version) name ≡ false
      → text_eq (codes Constants.hash_key_name) name ≡ false
      → text_eq (codes Constants.access_key_name) name ≡ false
      → call_session api h e account ≡ ok r
      → Leaves h name r
  call_session_effect h name other_name other_version other_hash other_access p0 =
      >>=-elim (install h e created.contract_hash (api.to_formatted_string created.package_hash)) _
        (sym (call_session-install h) ∙ p0)
        λ s q p1. subst (Leaves h name) (ok-injective p1) (
          name_key-kept,
          version_key-kept,
          hash_key-kept,
          other_key-kept name other_name other_version other_hash other_access,
          table-held,
          installer-held,
          q,
        )
