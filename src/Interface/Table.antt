-- ===== src/Interface/Table.antt =====
-- The table of entry points that `install_nft_contract` builds (casper/contract/src/main.rs).
use devxdao_m.Common.{
  ◌≡◌, refl, subst, ap, ◌∙◌, true, Option, none, some, List, [], ◌∷◌, if◌then◌else◌, ◌⊎◌, inl, inr,
  Bool-cases, Option-cases,
}
use devxdao_m.Common.Text.{Text, text_eq, text_eq→eq, codes}
use devxdao_m.Runtime.Contracts.{
  EntryPoint, EntryPointAccess, EntryPointType, ContractApi, IsDocumented,
}
use devxdao_m.Contract.EntryPoints.{
  add_entry_points, entry_points, declared, init_contract, set_variables_entry_point,
  add_to_account_whitelist_entry_point, remove_from_account_whitelist_entry_point, mint_entry_point,
  burn_entry_point, transfer_entry_point, approve_entry_point, owner_of_entry_point,
  balance_of_entry_point, get_approved_entry_point, metadata_entry_point,
  set_approval_for_all_entry_point, set_token_metadata_entry_point,
}
use devxdao_m.Contract.Dispatch

-- What `install_nft_contract` declares for a function.
unfoldable pub entry_point : Dispatch.Handler → EntryPoint
entry_point Dispatch.init_handler = init_contract
entry_point Dispatch.set_variables_handler = set_variables_entry_point
entry_point Dispatch.add_to_account_whitelist_handler = add_to_account_whitelist_entry_point
entry_point Dispatch.remove_from_account_whitelist_handler =
    remove_from_account_whitelist_entry_point
entry_point Dispatch.mint_handler = mint_entry_point
entry_point Dispatch.burn_handler = burn_entry_point
entry_point Dispatch.approve_handler = approve_entry_point
entry_point Dispatch.set_approval_for_all_handler = set_approval_for_all_entry_point
entry_point Dispatch.transfer_handler = transfer_entry_point
entry_point Dispatch.balance_of_handler = balance_of_entry_point
entry_point Dispatch.owner_of_handler = owner_of_entry_point
entry_point Dispatch.metadata_handler = metadata_entry_point
entry_point Dispatch.get_approved_handler = get_approved_entry_point
entry_point Dispatch.set_token_metadata_handler = set_token_metadata_entry_point

-- The last declaration under a name, or what the table had.
unfoldable pub last_under : Text → List EntryPoint → Option EntryPoint → Option EntryPoint
last_under name [] found = found
last_under name (x ∷ rest) found =
    last_under name rest (if text_eq (codes x.name) name then some x else found)

-- Each function is declared under its symbol, for anyone, in the contract's context.
last_under-symbol :
    (x : Dispatch.Handler)
    → last_under (codes (Dispatch.symbol x)) declared none ≡ some (entry_point x)
unfolding last_under declared entry_point text_eq init_contract set_variables_entry_point
    add_to_account_whitelist_entry_point remove_from_account_whitelist_entry_point mint_entry_point
    burn_entry_point transfer_entry_point approve_entry_point owner_of_entry_point
    balance_of_entry_point get_approved_entry_point metadata_entry_point
    set_approval_for_all_entry_point set_token_metadata_entry_point
last_under-symbol Dispatch.init_handler = refl
last_under-symbol Dispatch.set_variables_handler = refl
last_under-symbol Dispatch.add_to_account_whitelist_handler = refl
last_under-symbol Dispatch.remove_from_account_whitelist_handler = refl
last_under-symbol Dispatch.mint_handler = refl
last_under-symbol Dispatch.burn_handler = refl
last_under-symbol Dispatch.transfer_handler = refl
last_under-symbol Dispatch.approve_handler = refl
last_under-symbol Dispatch.owner_of_handler = refl
last_under-symbol Dispatch.balance_of_handler = refl
last_under-symbol Dispatch.get_approved_handler = refl
last_under-symbol Dispatch.metadata_handler = refl
last_under-symbol Dispatch.set_approval_for_all_handler = refl
last_under-symbol Dispatch.set_token_metadata_handler = refl

abbrev pub IsOpen : EntryPoint → Type 0
IsOpen x = (x.access ≡ EntryPointAccess.public) × (x.entry_point_type ≡ EntryPointType.contract)

-- What stands in the table, by its function.
abbrev pub Exports : EntryPoint → Type 0
Exports x =
    (y : Dispatch.Handler) × (x ≡ entry_point y)
    × (codes x.name ≡ codes (Dispatch.symbol y))
    × IsOpen x

abbrev AllExport : List EntryPoint → Type 0
AllExport [] = Unit
AllExport (x ∷ l) = Exports x × AllExport l

entry_point-Exports : (y : Dispatch.Handler) → Exports (entry_point y)
unfolding entry_point init_contract set_variables_entry_point add_to_account_whitelist_entry_point
    remove_from_account_whitelist_entry_point mint_entry_point burn_entry_point transfer_entry_point
    approve_entry_point owner_of_entry_point balance_of_entry_point get_approved_entry_point
    metadata_entry_point set_approval_for_all_entry_point set_token_metadata_entry_point
entry_point-Exports Dispatch.init_handler = (Dispatch.init_handler, refl, refl, (refl, refl))
entry_point-Exports Dispatch.set_variables_handler =
    (Dispatch.set_variables_handler, refl, refl, (refl, refl))
entry_point-Exports Dispatch.add_to_account_whitelist_handler =
    (Dispatch.add_to_account_whitelist_handler, refl, refl, (refl, refl))
entry_point-Exports Dispatch.remove_from_account_whitelist_handler =
    (Dispatch.remove_from_account_whitelist_handler, refl, refl, (refl, refl))
entry_point-Exports Dispatch.mint_handler = (Dispatch.mint_handler, refl, refl, (refl, refl))
entry_point-Exports Dispatch.burn_handler = (Dispatch.burn_handler, refl, refl, (refl, refl))
entry_point-Exports Dispatch.transfer_handler =
    (Dispatch.transfer_handler, refl, refl, (refl, refl))
entry_point-Exports Dispatch.approve_handler = (Dispatch.approve_handler, refl, refl, (refl, refl))
entry_point-Exports Dispatch.owner_of_handler =
    (Dispatch.owner_of_handler, refl, refl, (refl, refl))
entry_point-Exports Dispatch.balance_of_handler =
    (Dispatch.balance_of_handler, refl, refl, (refl, refl))
entry_point-Exports Dispatch.get_approved_handler =
    (Dispatch.get_approved_handler, refl, refl, (refl, refl))
entry_point-Exports Dispatch.metadata_handler =
    (Dispatch.metadata_handler, refl, refl, (refl, refl))
entry_point-Exports Dispatch.set_approval_for_all_handler =
    (Dispatch.set_approval_for_all_handler, refl, refl, (refl, refl))
entry_point-Exports Dispatch.set_token_metadata_handler =
    (Dispatch.set_token_metadata_handler, refl, refl, (refl, refl))

declared-AllExport : AllExport declared
unfolding declared entry_point
declared-AllExport = (
  entry_point-Exports Dispatch.init_handler,
  (
    entry_point-Exports Dispatch.set_variables_handler,
    (
      entry_point-Exports Dispatch.add_to_account_whitelist_handler,
      (
        entry_point-Exports Dispatch.remove_from_account_whitelist_handler,
        (
          entry_point-Exports Dispatch.mint_handler,
          (
            entry_point-Exports Dispatch.burn_handler,
            (
              entry_point-Exports Dispatch.transfer_handler,
              (
                entry_point-Exports Dispatch.approve_handler,
                (
                  entry_point-Exports Dispatch.owner_of_handler,
                  (
                    entry_point-Exports Dispatch.balance_of_handler,
                    (
                      entry_point-Exports Dispatch.get_approved_handler,
                      (
                        entry_point-Exports Dispatch.metadata_handler,
                        (
                          entry_point-Exports Dispatch.set_approval_for_all_handler,
                          (entry_point-Exports Dispatch.set_token_metadata_handler, tt),
                        ),
                      ),
                    ),
                  ),
                ),
              ),
            ),
          ),
        ),
      ),
    ),
  ),
)

-- What is found under a name was there before or is exported under it.
last_under-Exports :
    (name : Text) (l : List EntryPoint) (found : Option EntryPoint) (x : EntryPoint)
    → AllExport l
    → last_under name l found ≡ some x
    → (found ≡ some x) ⊎ (Exports x × (codes x.name ≡ name))
unfolding last_under
last_under-Exports name [] found x all at = inl at
last_under-Exports name (y ∷ l) found x (first, rest) at =
    elim (last_under-Exports name l (if text_eq (codes y.name) name then some y else found) x rest
      at) [
        | inl here ↦ elim (Bool-cases (text_eq (codes y.name) name)) [
          | inl same ↦ inr (
              subst (λ z. Exports z × (codes z.name ≡ name)) (y-eq same here)
                (first, text_eq→eq (codes y.name) name same))
          | inr differs ↦ inl (rw differs at here)
        ]
        | inr there ↦ inr there
      ]
  where
    y-eq :
        text_eq (codes y.name) name ≡ true
        → (if text_eq (codes y.name) name then some y else found) ≡ some x
        → y ≡ x
    y-eq same here = cc (same, rw same at here)

last_under-declared :
    (name : Text) (x : EntryPoint)
    → last_under name declared none ≡ some x
    → Exports x × (codes x.name ≡ name)
last_under-declared name x at =
    elim (last_under-Exports name declared none x declared-AllExport at) [
      | inl absent ↦ cc
      | inr there ↦ there
    ]

module _ (api : ContractApi) (doc : IsDocumented api) where
  pub get_entry_point-add_entry_points :
      (table : api.EntryPoints) (l : List EntryPoint) (name : Text)
      → api.get_entry_point (add_entry_points api table l) name
        ≡ last_under name l (api.get_entry_point table name)
  unfolding add_entry_points last_under
  get_entry_point-add_entry_points table [] name = refl
  get_entry_point-add_entry_points table (x ∷ l) name =
      get_entry_point-add_entry_points (api.add_entry_point table x) l name
      ∙ ap (last_under name l) (doc.get_entry_point-add table x name)

  get_entry_point-entry_points :
      (name : Text) → api.get_entry_point (entry_points api) name ≡ last_under name declared none
  unfolding entry_points
  get_entry_point-entry_points name =
      get_entry_point-add_entry_points api.new_entry_points declared name
      ∙ ap (last_under name declared) (doc.get_entry_point-new name)

  -- The table of the installed contract has each exported function under its symbol, as it is declared
  -- for it. Under any name it has either no entry, or the declaration of one of these functions, whose
  -- symbol is that name, which anyone can call and which runs in the contract's context.
  pub entry_points-Exports :
      (x : Dispatch.Handler) (name : Text)
      → (api.get_entry_point (entry_points api) (codes (Dispatch.symbol x)) ≡ some (entry_point x))
        × ((api.get_entry_point (entry_points api) name ≡ none)
            ⊎ ((found : EntryPoint) × (api.get_entry_point (entry_points api) name ≡ some found)
                × Exports found
                × (codes found.name ≡ name)))
  entry_points-Exports x name =
      let look = get_entry_point-entry_points name in
      (
        get_entry_point-entry_points (codes (Dispatch.symbol x)) ∙ last_under-symbol x,
        elim (Option-cases (last_under name declared none)) [
          | inl nothing ↦ inl (look ∙ nothing)
          | inr (found, there) ↦
              let (exported, named) = last_under-declared name found there in
              inr (found, look ∙ there, exported, named)
        ],
      )
