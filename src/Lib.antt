-- ===== src/Lib.antt =====
-- The NFT contract of casper/contract: a CEP-78 contract with an account whitelist, as a Rust program
-- whose entry points the Casper host calls. It keeps its state under named keys: values, written once
-- by `init` or by the installer's calls, and dictionaries from a token's or an owner's item key. The
-- library models that contract and proves what its calls keep, change, refuse and answer.
--
-- Parts, with the code that each is about:
-- - Common: Booleans, lists, decimal numerals and counting below a bound.
-- - Runtime: what casper_types, casper_contract and casper_serde_json_wasm give the contract. Runtime.Types
--   has keys, the call stack, an argument as the host answers for it, one call (`Env`) and the functions
--   of those libraries (`Host`); Runtime.Results the outcome of a call (a value, a revert with its error,
--   a panic); Runtime.Store named keys, stored values and dictionaries; Runtime.Bytes the traits of
--   bytesrepr; Runtime.Ffi the host's functions on buffers; Runtime.Contracts entry points and new
--   contracts.
-- - Contract: the code of casper/contract/src. Contract.Constants, Contract.Error and Contract.Modes
--   are constants.rs, error.rs and the enums of utils.rs; Contract.Utils has the other functions of
--   utils.rs; Contract.State has a field for each named key. The session `call` of main.rs is in
--   Contract.Install (what it decides of the contract's state) and Contract.Call (with the account's
--   named keys), the table of entry points that it installs in Contract.EntryPoints, the exported
--   functions under one type in Contract.Dispatch, and the entry points are in Contract.Init, Contract.Admin (`set_variables`,
--   `add_to_account_whitelist`, `remove_from_account_whitelist`), Contract.Mint, Contract.Burn,
--   Contract.Approve (`approve`, `set_approval_for_all`), Contract.Transfer and Contract.Query (the
--   answers, and `set_token_metadata`); Contract.Counts has what they share.
-- - Ledger: an instance after `init`. `Ledger` has its values, `deployed` is the state that holds them,
--   and for each entry point a record says what a call that succeeds has checked and written.
-- - Balances: when owners, marks, counts and supply agree with one another (`IsConsistent`).
-- - History: sequences of calls (`Step`, `Reach`) and their invariants.
-- - Owned: when the lists of owned tokens agree with the owners (`IsListed`), when calls succeed, and
--   the operators of the tokens (`Unapproved`, `WasGranted`).
-- - Registry: an abstract registry of numbered tokens and its events, as a specification of the contract.
-- - Rights: who may do what, and what a call does for the token that it names.
-- - Sessions: the sessions of casper/client and the entry points and installation of its
--   minting_contract, against an interface (`NftContract`) that the contract fills.
-- - Interface: the contract as the host sees it, by its table of entry points and from the session that
--   installs it on.
-- - Bytes: the byte serialisation of the metadata schemas, and the functions of utils.rs that fetch bytes
--   from the host against the answers that the rest of the model takes.
-- - Tests: concrete instances and calls, and an example of each result.
--
-- An entry point is a function from the host's functions, the call and the state to a result; a call that
-- reverts or panics has no new state, as the host rolls it back. It reads and writes in the order of the
-- source. The bodies of the larger entry points are cut into functions where the source has a `match` or
-- a block. An `Err` of `get_verified_caller`, `get_holder_mode`, `get_ownership_mode` and
-- `validate_metadata` is the revert that every caller makes of it.
--
-- Bounds: a `u64` sum is written with its wrap-around at 2 ^ 64, as in a release build; `IsConsistent`
-- bounds the supply below it. Account and contract hashes are numbers, Rust strings are lists of code
-- points. The decimal numeral of n takes n + 1 as fuel for its digits, which is enough since each
-- digit divides by ten. Loops of the source are recursion on lists.
--
-- Parameters: the JSON codec, the text of a hash and the address of a dictionary entry are fields of
-- `Host`, and nothing is assumed of them. The instances of bytesrepr, the calls that make entry points
-- and contracts, and the host's functions on buffers are records too (`Bytesrepr`, `ContractApi`, `Ffi`);
-- what is assumed of the first two is in a record `IsDocumented` of each, which a concrete one meets
-- (Bytes.Simple, Interface.Plain). Of casper_contract the model takes what its documentation
-- says of named keys, dictionaries and named arguments: a write is read back, a dictionary is created
-- only under a name that has no key, a missing or undecodable argument ends the call. Arguments and
-- stored values stand decoded, with the ways in which the fetch can fail beside them. A dictionary is
-- a function of the item key with values of one type; only OWNED_TOKENS is written at two types, and
-- is read at the type of the identifier mode.
--
-- Not modelled: memory (a buffer's address, and allocation that fails), gas, the return value's encoding
-- (`runtime::ret`, given here as the result), and the refusal of dictionary item keys of more than 128
-- bytes by `dictionary_get` and `dictionary_put`: item keys are taken to be within that limit, as the
-- numeral of a `u64` and a hash in hexadecimal are, and the caller's identifier in hash mode need not
-- be. The services in api, the protocols in npl and
-- the deployment files are other programs.
pub mod Common
pub mod Runtime
pub mod Contract
pub mod Ledger
pub mod Balances
pub mod History
pub mod Rights
pub mod Owned
pub mod Registry
pub mod Sessions
pub mod Bytes
pub mod Interface
pub mod Tests
