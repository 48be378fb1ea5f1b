-- ===== src/Ledger/Mint.antt =====
-- What a mint that succeeds has checked and written (casper/contract/src/main.rs, `mint`).
use devxdao_m.Common.{ℕ, ◌+◌, ◌%◌, ◌^◌, ◌<◌, ◌≡◌, sym, Bool, true, false, arith, if◌then◌else◌}
use devxdao_m.Common.Text.{Text}
use devxdao_m.Runtime.{Key, Host, Env, Dict, dictionary_put, stored_dict, ok, >>=-elim, ok-fst}
use devxdao_m.Contract.Modes.{NftMetadataKind}
use devxdao_m.Contract.State.{State, OwnedTokens}
use devxdao_m.Contract.Utils.Tokens.{
  TokenIdentifier, get_dictionary_item_key, get_owned_tokens_dictionary_item_key,
}
use devxdao_m.Contract.Counts.{next_count, owned_tokens_actual_key}
use devxdao_m.Contract.Mint.{
  MintReceipt, mint, check_minting_status, check_supply, check_minter, new_token_owner,
  new_metadata, new_token_identifier, record_token, add_owned_token,
}
use devxdao_m.Ledger.Defs.{Ledger, deployed}
use devxdao_m.Ledger.Reads.{
  get_identifier_mode-deployed, get_metadata_kind-deployed, get_number_of_minted_tokens-deployed,
}
use devxdao_m.Ledger.Writes.{upsert-as_is, increment_count-stored_dict}
use devxdao_m.Ledger.Owned.{add_owned_token-eq-ok}

abbrev pub is_cep78 : NftMetadataKind → Bool
is_cep78 NftMetadataKind.cep78 = true
is_cep78 _ = false

abbrev pub is_nft721 : NftMetadataKind → Bool
is_nft721 NftMetadataKind.nft721 = true
is_nft721 _ = false

abbrev pub is_raw : NftMetadataKind → Bool
is_raw NftMetadataKind.raw = true
is_raw _ = false

abbrev pub is_custom : NftMetadataKind → Bool
is_custom NftMetadataKind.custom_validated = true
is_custom _ = false

-- A dictionary with an entry more, where the test passes.
abbrev pub put_if : {A : Type 0} → Bool → Dict A → Text → A → Dict A
put_if b d k v = if b then dictionary_put d k v else d

abbrev pub recorded : Ledger → TokenIdentifier → Key → NftMetadataKind → Text → Ledger
recorded d t key kind metadata = record d {
  token_owners = dictionary_put d.token_owners (get_dictionary_item_key t) key;
  token_issuers = dictionary_put d.token_issuers (get_dictionary_item_key t) key;
  metadata_cep78 = put_if (is_cep78 kind) d.metadata_cep78 (get_dictionary_item_key t) metadata;
  metadata_nft721 = put_if (is_nft721 kind) d.metadata_nft721 (get_dictionary_item_key t) metadata;
  metadata_raw = put_if (is_raw kind) d.metadata_raw (get_dictionary_item_key t) metadata;
  metadata_custom_validated =
      put_if (is_custom kind) d.metadata_custom_validated (get_dictionary_item_key t) metadata;
}

pub record_token-deployed :
    (t : TokenIdentifier) (key : Key) (kind : NftMetadataKind) (metadata : Text) (d : Ledger)
    → record_token t key kind metadata (deployed d) ≡ ok (deployed (recorded d t key kind metadata))
unfolding record_token
record_token-deployed t key NftMetadataKind.cep78 metadata d =
    rw (upsert-as_is d.token_owners, upsert-as_is d.token_issuers, upsert-as_is d.metadata_cep78)
record_token-deployed t key NftMetadataKind.nft721 metadata d =
    rw (upsert-as_is d.token_owners, upsert-as_is d.token_issuers, upsert-as_is d.metadata_nft721)
record_token-deployed t key NftMetadataKind.raw metadata d =
    rw (upsert-as_is d.token_owners, upsert-as_is d.token_issuers, upsert-as_is d.metadata_raw)
record_token-deployed t key NftMetadataKind.custom_validated metadata d = rw (
  upsert-as_is d.token_owners,
  upsert-as_is d.token_issuers,
  upsert-as_is d.metadata_custom_validated,
)

pub check_supply-eq-ok :
    (d : Ledger) {n : ℕ}
    → check_supply (deployed d) ≡ ok n
    → (n ≡ d.number_of_minted_tokens) × (d.number_of_minted_tokens < d.total_token_supply)
unfolding check_supply
check_supply-eq-ok d p = ground (arith, get_number_of_minted_tokens-deployed d)

-- The ledger after a mint.
abbrev pub minted : Ledger → TokenIdentifier → Key → Text → Text → OwnedTokens → Ledger
minted d t key metadata item_key owned = record (recorded d t key d.nft_metadata_kind metadata) {
  owned_tokens = dictionary_put d.owned_tokens item_key owned;
  token_counts = dictionary_put d.token_counts item_key (next_count (d.token_counts item_key));
  number_of_minted_tokens = (d.number_of_minted_tokens + 1) % 2 ^ 64;
}

pub record Mints (h : Host) (e : Env) (d : Ledger) (s' : State) : Type 0 where
  pub token : TokenIdentifier
  pub owner : Key
  pub metadata : Text
  pub item_key : Text
  pub owned : OwnedTokens
  pub enabled : d.allow_minting ≡ true
  pub supply_left : d.number_of_minted_tokens < d.total_token_supply
  pub allowed : check_minter e (deployed d) ≡ ok tt
  pub owned_by : new_token_owner e (deployed d) ≡ ok owner
  pub described : new_metadata h e (deployed d) d.nft_metadata_kind ≡ ok metadata
  pub named : new_token_identifier d.identifier_mode e d.number_of_minted_tokens ≡ ok token
  pub keyed : get_owned_tokens_dictionary_item_key h owner ≡ ok item_key
  pub listed :
      add_owned_token d.identifier_mode (stored_dict d.owned_tokens) item_key token
      ≡ ok (stored_dict (dictionary_put d.owned_tokens item_key owned))
  pub result : s' ≡ deployed (minted d token owner metadata item_key owned)

check_minting_status-eq-ok :
    (d : Ledger) {u : Unit {0}} → check_minting_status (deployed d) ≡ ok u → d.allow_minting ≡ true
unfolding check_minting_status
check_minting_status-eq-ok d p = ground arith

pub mint-Mints :
    (h : Host) (e : Env) (d : Ledger) {s' : State} {r : MintReceipt}
    → mint h e (deployed d) ≡ ok (s', r)
    → Mints h e d s'
unfolding mint owned_tokens_actual_key
mint-Mints h e d p0 = >>=-elim (check_minting_status (deployed d)) _ p0 λ u1 q1 p1.
    >>=-elim (check_supply (deployed d)) _ p1 λ n q2 p2.
      >>=-elim (check_minter e (deployed d)) _ p2 λ u3 q3 p3.
        >>=-elim (new_token_owner e (deployed d)) _ p3 λ key q4 p4.
          let p5 = rw (get_metadata_kind-deployed d) at p4 in
          >>=-elim (new_metadata h e (deployed d) d.nft_metadata_kind) _ p5 λ m q6 p6.
            let p7 = rw (get_identifier_mode-deployed d) at p6 in
            >>=-elim (new_token_identifier d.identifier_mode e n) _ p7 λ t q8 p8.
              let p9 = rw (record_token-deployed t key d.nft_metadata_kind m d) at p8 in
              >>=-elim (get_owned_tokens_dictionary_item_key h key) _ p9 λ k q10 p10.
                >>=-elim (add_owned_token d.identifier_mode (stored_dict d.owned_tokens) k t) _ p10
                  λ c q11 p11.
                    let p12 = rw (increment_count-stored_dict d.token_counts k) at p11 in
                    let (x, written) =
                      add_owned_token-eq-ok d.identifier_mode d.owned_tokens k t q11 in
                    let (next, left) = check_supply-eq-ok d q2 in
                    record {
                      token = t;
                      owner = key;
                      metadata = m;
                      item_key = k;
                      owned = x;
                      enabled = check_minting_status-eq-ok d q1;
                      supply_left = left;
                      allowed = q3;
                      owned_by = q4;
                      described = q6;
                      named = rw next at q8;
                      keyed = q10;
                      listed = rw written at q11;
                      result = sym (ok-fst (rw (next, written) at p12));
                    }
