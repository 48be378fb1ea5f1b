-- ===== src/Tests/Fixtures.antt =====
-- A host, instances and calls to run the contract with.
use Prim.Native.String.{String}
use devxdao_m.Common.{ℕ, true, some, List, [], ◌∷◌}
use devxdao_m.Common.Text.{Text, codes}
use devxdao_m.Common.Decimal.{to_string}
use devxdao_m.Runtime.{Key, CallStackElement, Host, Env, Arg}
use devxdao_m.Contract.Modes.{
  MintingMode, OwnershipMode, NftKind, NftHolderMode, WhitelistMode, NftMetadataKind,
  NftIdentifierMode, MetadataMutability,
}
use devxdao_m.Contract.State.{OwnedTokens}
use devxdao_m.Contract.Install.{named_arg}
use devxdao_m.Contract.Init.{InitArgs}
use devxdao_m.Contract.Utils.Tokens.{TokenIdentifier}
use devxdao_m.Ledger.Defs.{Ledger}
use devxdao_m.Ledger.Init.{initial}
use devxdao_m.Ledger.Mint.{minted}
use devxdao_m.Ledger.Burn.{burnt}
use devxdao_m.Ledger.Transfer.{transferred}

-- A codec that reads one schema and one text of each kind.
abbrev pub host : Host
host = record {
  account_hash_to_string = to_string;
  contract_hash_to_string = λ c. 99 ∷ to_string c;
  owned_tokens_address = λ k. 0;
  parse_schema = λ text. some (record {
    properties =
        (codes "color", record { name = codes "color"; description = []; required = true }) ∷ [];
  });
  parse_cep78 =
      λ text. some (record { name = codes "n"; token_uri = codes "u"; checksum = codes "c" });
  parse_nft721 =
      λ text. some (record { name = codes "n"; symbol = codes "s"; token_uri = codes "u" });
  parse_attributes = λ text. some ((codes "color", codes "red") ∷ []);
  print_cep78 = λ m. some m.name;
  print_nft721 = λ m. some m.name;
  print_attributes = λ m. some (codes "color: red");
}

-- A call by an account's session code.
abbrev pub call : ℕ → List (String × ℕ) → List (String × Text) → List (String × Key) → Env
call account numbers texts keys = record {
  caller = account;
  call_stack = CallStackElement.session account ∷ CallStackElement.stored_contract 50 ∷ [];
  arg_bool = named_arg (("allow_minting", true) ∷ ("approve_all", true) ∷ []);
  arg_u8 = named_arg numbers;
  arg_u64 = named_arg numbers;
  arg_text = named_arg texts;
  arg_key = named_arg keys;
  arg_hashes = named_arg (("contract_whitelist", []) ∷ ("account_whitelist", 8 ∷ []) ∷ []);
  arg_option_bool = λ name. Arg.undecodable;
  arg_option_u8 = λ name. Arg.undecodable;
  arg_option_hashes = λ name. Arg.undecodable;
}

abbrev pub settings : NftHolderMode → NftMetadataKind → NftIdentifierMode → InitArgs
settings holder_mode kind identifier_mode = record {
  collection_name = codes "Collection";
  collection_symbol = codes "C";
  total_token_supply = 10;
  allow_minting = true;
  minting_mode = MintingMode.public;
  ownership_mode = OwnershipMode.transferable;
  nft_kind = NftKind.digital;
  holder_mode = holder_mode;
  whitelist_mode = WhitelistMode.unlocked;
  contract_whitelist = [];
  account_whitelist = 8 ∷ [];
  json_schema = [];
  receipt_name = codes "receipt";
  nft_metadata_kind = kind;
  identifier_mode = identifier_mode;
  metadata_mutability = MetadataMutability.mutable;
}

abbrev pub init_call : Env
init_call =
    call 7
      (("total_token_supply", 10)
        ∷ ("minting_mode", 1)
        ∷ ("ownership_mode", 2)
        ∷ ("nft_kind", 1)
        ∷ ("holder_mode", 0)
        ∷ ("whitelist_mode", 0)
        ∷ ("nft_metadata_kind", 2)
        ∷ ("identifier_mode", 0)
        ∷ ("metadata_mutability", 1)
        ∷ [])
      (("collection_name", codes "Collection")
        ∷ ("collection_symbol", codes "C")
        ∷ ("json_schema", [])
        ∷ ("receipt_name", codes "receipt")
        ∷ [])
      []

abbrev pub numbered : NftHolderMode → Ledger
numbered mode = initial 7 (settings mode NftMetadataKind.raw NftIdentifierMode.ordinal)

abbrev pub fresh : Ledger
fresh = numbered NftHolderMode.accounts

-- Account 7 mints for itself.
abbrev pub mint_call : Env
mint_call = call 7 [] (("token_meta_data", codes "m") ∷ []) (("token_owner", Key.account 7) ∷ [])

abbrev pub with_token : NftHolderMode → Ledger
with_token mode =
    minted (numbered mode) (TokenIdentifier.index 0) (Key.account 7) (codes "m") (to_string 7)
      (OwnedTokens.indices (0 ∷ []))

abbrev pub one_token : Ledger
one_token = with_token NftHolderMode.accounts

abbrev pub transfer_call : Env
transfer_call =
    call 7 (("token_id", 0) ∷ []) []
      (("source_key", Key.account 7) ∷ ("target_key", Key.account 8) ∷ [])

abbrev pub moved : NftHolderMode → Ledger
moved mode =
    transferred (with_token mode) (TokenIdentifier.index 0) (Key.account 8) (to_string 7)
      (to_string 8) 0 (OwnedTokens.indices []) (OwnedTokens.indices (0 ∷ []))

abbrev pub token_call : Env
token_call = call 7 (("token_id", 0) ∷ []) [] []

abbrev pub after_burn : Ledger
after_burn = burnt one_token (TokenIdentifier.index 0) (to_string 7) 0

abbrev pub after_burn_mint : Ledger
after_burn_mint =
    minted after_burn (TokenIdentifier.index 1) (Key.account 7) (codes "m") (to_string 7)
      (OwnedTokens.indices (0 ∷ 1 ∷ []))

abbrev pub operator_call : Env
operator_call = call 7 (("token_id", 0) ∷ []) [] (("operator", Key.account 9) ∷ [])

abbrev pub listing_call : ℕ → Env
listing_call a = call 7 [] [] (("account_whitelist", Key.account a) ∷ [])

abbrev pub hashed : Ledger
hashed = initial 7 (settings NftHolderMode.accounts NftMetadataKind.raw NftIdentifierMode.hash)

abbrev pub hash_mint_call : ℕ → Env
hash_mint_call owner =
    call 7 [] (("token_meta_data", codes "m") ∷ ("token_id_hash", codes "h") ∷ [])
      (("token_owner", Key.account owner) ∷ [])

abbrev pub hash_token : Ledger → ℕ → Ledger
hash_token d owner =
    minted d (TokenIdentifier.hash (codes "h")) (Key.account owner) (codes "m") (to_string owner)
      (OwnedTokens.hashes (codes "h" ∷ []))

abbrev pub custom : Ledger
custom =
    initial 7
      (settings NftHolderMode.accounts NftMetadataKind.custom_validated NftIdentifierMode.ordinal)

-- An installation in hash mode, with the optional arguments left out.
abbrev pub install_call : Env
install_call =
    call 7
      (("total_token_supply", 10)
        ∷ ("ownership_mode", 2)
        ∷ ("nft_kind", 1)
        ∷ ("nft_metadata_kind", 2)
        ∷ ("identifier_mode", 1)
        ∷ ("metadata_mutability", 0)
        ∷ [])
      (("collection_name", codes "C") ∷ ("collection_symbol", codes "C") ∷ ("json_schema", []) ∷ [])
      []

abbrev pub installed_settings : InitArgs
installed_settings = record {
  collection_name = codes "C";
  collection_symbol = codes "C";
  total_token_supply = 10;
  allow_minting = true;
  minting_mode = MintingMode.installer;
  ownership_mode = OwnershipMode.transferable;
  nft_kind = NftKind.digital;
  holder_mode = NftHolderMode.accounts;
  whitelist_mode = WhitelistMode.unlocked;
  contract_whitelist = [];
  account_whitelist = [];
  json_schema = [];
  receipt_name = codes "nft-C-p";
  nft_metadata_kind = NftMetadataKind.raw;
  identifier_mode = NftIdentifierMode.hash;
  metadata_mutability = MetadataMutability.immutable;
}
