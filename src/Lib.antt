-- ===== src/Lib.antt =====
-- rgb-std keeps what is known of a contract beside its ledger: the pile of witnesses and seal
-- definitions, the contract that joins a ledger to a pile, the contracts of a stockpile, and the wallet
-- that pays invoices with their state over bitcoin.
--
-- The parts and the files that model them:
--
-- * `Status` is `WitnessStatus` of src/pile.rs: the order by `quasi_height`, `best` and `worst`, and
--   the 8-byte form. A u64 is a native number; what wraps or is reserved is written out.
-- * `Seals`, `Ledger` and `Wire` are parameters: the seals of rgb-core, the ledger of hypersonic and
--   the decoders of strict encoding. Ids are numbers, since the code only compares them.
-- * `Pile` is the trait `Pile` of src/pile.rs as a record of operations, `PileLaws` what its clients
--   rely on.
-- * `PileFs` is `PileFs` of persistence/fs/src/pile.rs: six containers of aora, which are parameters
--   with laws (`PileFs/Aora`). `PileFs/Valid` has the invariant, `PileFs/Reachable` the piles
--   that calls reach from a new one, `PileFs/Refines` the laws of the trait.
-- * `Contract` is the struct of src/contract.rs: `Contract/Status` has `witness_status` and
--   `retrieve`, `Contract/Sync` the five steps of `sync`, `Contract/Include` `include`,
--   `Contract/State` `state` with its two caches and the maps of `ContractState`, `Contract/Call`
--   `call`, `Contract/Params` and `Contract/New` the parameters, `issue`, `with` and `load`,
--   `Contract/Reader` `OpReader`, `Contract/Export` `aux` with `export` and `consign`, over a writer that
--   is a parameter, `Contract/Export/ReadBack` and `Contract/Export/Streamed` what the reader makes
--   of it (`Contract/Export/Stream` is what hypersonic writes around it), and `Contract/Consume`
--   `consume`, with its ends in `Contract/Consume/Ends`. `Host` is what these call of hypersonic and
--   rgb-core, such as the evaluation of operations.
-- * `Consignment` is src/consignment.rs, `Errors` the error types.
-- * `Stockpile` is the trait of src/stockpile.rs, and `Contracts` the struct of src/contracts.rs, which
--   caches contracts and issuers of a stockpile: `Contracts/View` is the view that forgets the cache,
--   `Contracts/Reads` the reads that keep it, `Contracts/Queries` looks up contracts and witnesses
--   (`Contracts/WitnessIds` says which), `Contracts/Exports` lists issuers and exports,
--   `Contracts/Consume` has `consume`, and `Contracts/Consume/Ends` its ends.
-- * `StockpileDir` is persistence/fs/src/stockpile.rs, over a file system that is a parameter:
--   `StockpileDir/Load` opens a directory, `StockpileDir/Listed` is on what it then lists,
--   `StockpileDir/Issuers` on imported issuers and `StockpileDir/Purged` on purged contracts.
-- * `Invoice` is invoice/src/lib.rs, beneficiaries and contract queries as text, with the functions on
--   texts in `Invoice/Text`; `Invoice/Wout` is `WitnessOut` of invoice/src/bp.rs. `Formats` and `Codecs`
--   are the parsers and encoders of other crates. `Invoice/Parsed` and `Invoice/Queries` are on
--   reading back what is printed, over `Invoice/RoundTrip`.
-- * `Bp` is src/popls/bp.rs: the data of operation requests. `Bp/Requests` resolves their seals,
--   `Bp/Wallet` is `RgbWallet` with its seals and own state, `Bp/Fulfill` `fulfill`, `Bp/Check`
--   `check_request`, `Bp/Prefab` `prefab`, `Bp/Bundle` and `Bp/Bundling` `bundle`, `Bp/Include` `include`
--   and the seal resolver of `consume`. Parameters are `Api`, the state calculators and the parts of
--   calls of hypersonic; `Confined`, the collections of amplify; `WalletProvider`, the trait of that
--   name with the seals of bp-core; and `Anchors`, its anchors. `Bp/Conserved` and `Bp/Additive` are on
--   checked requests (over `Bp/Balance` and `Bp/Checked`), `Bp/Accepted` on paid invoices (over
--   `Bp/Runs`, `Bp/Fulfilled` and `Bp/Owned`), `Bp/Prepared` on requests between `fulfill` and
--   `prefab`, `Bp/Prefabbed` (over `Bp/Defined` and `Bp/Outputs`), `Bp/Returned` and `Bp/Panics` on prefabs,
--   `Bp/Covered` on bundles (over `Bp/Prefabs`, `Bp/BlankUses`, `Bp/Blanks` and
--   `Bp/Bundled`), `Bp/Included` on
--   `include`, `Bp/SealsFound` and `Bp/Received` on the seal resolver (over `Bp/Positions`).
-- * `Base` has the shared helpers; the maps of the program are association lists that keep the order
--   of the map that the code uses. `Tests` has concrete parameters and each theorem at an input.
--
-- A call that changes state takes the state and returns the new one; `none` is a panic, and `Result`
-- is Rust's. A chain of `?` that changes state on the way is a function by clauses for each step, on
-- the result of the step before. All loops go over lists or a number that is counted down. The fuel
-- is that of `read_all` and `take_all`, consumers of the operation readers, which are shown to end
-- within one call more than there are operations, and that of `trim_start_matches`, the length of the
-- text, of which each round takes a part. `consume` of `Bp/Include` takes as an argument that the seal
-- resolver does not panic.
--
-- Not modelled: the command line, the generated type libraries, the binary files of
-- bundles and consignments, and errors of the
-- file system inside a pile, all of which are input and output around the parts above.
mod Base
mod Tests
pub mod Status
pub mod Seals
pub mod Pile
pub mod Ledger
pub mod Contract
pub mod PileFs
pub mod Wire
pub mod Errors
pub mod Host
pub mod Consignment
pub mod Stockpile
pub mod StockpileDir
pub mod Invoice
pub mod Bp
pub mod Contracts
