-- ===== src/Ledger/Reads.antt =====
-- What the readers of casper/contract/src/utils.rs find in an initialised instance.
use devxdao_m.Common.{◌≡◌, refl}
use devxdao_m.Runtime.{ok}
use devxdao_m.Contract.Utils.Reads.{
  get_ownership_mode, get_holder_mode, get_identifier_mode, get_metadata_kind,
  get_number_of_minted_tokens,
}
use devxdao_m.Ledger.Defs.{Ledger, deployed}
use devxdao_m.Ledger.Modes.{
  ownership_mode_try_from-as_u8, holder_mode_try_from-as_u8, identifier_mode_try_from-as_u8,
  nft_metadata_kind_try_from-as_u8,
}

module _ (d : Ledger) where
  pub get_ownership_mode-deployed : get_ownership_mode (deployed d) ≡ ok d.ownership_mode
  unfolding get_ownership_mode
  get_ownership_mode-deployed = rw (ownership_mode_try_from-as_u8 d.ownership_mode)

  pub get_holder_mode-deployed : get_holder_mode (deployed d) ≡ ok d.holder_mode
  unfolding get_holder_mode
  get_holder_mode-deployed = rw (holder_mode_try_from-as_u8 d.holder_mode)

  pub get_identifier_mode-deployed : get_identifier_mode (deployed d) ≡ ok d.identifier_mode
  unfolding get_identifier_mode
  get_identifier_mode-deployed = rw (identifier_mode_try_from-as_u8 d.identifier_mode)

  pub get_metadata_kind-deployed : get_metadata_kind (deployed d) ≡ ok d.nft_metadata_kind
  unfolding get_metadata_kind
  get_metadata_kind-deployed = rw (nft_metadata_kind_try_from-as_u8 d.nft_metadata_kind)

  pub get_number_of_minted_tokens-deployed :
      get_number_of_minted_tokens (deployed d) ≡ ok d.number_of_minted_tokens
  unfolding get_number_of_minted_tokens
  get_number_of_minted_tokens-deployed = refl
