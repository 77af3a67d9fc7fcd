-- ===== src/Tests/Hosts.antt =====
-- Concrete instances of the parameters of the contracts and the stockpile: a disk that is a list of
-- paths, and a stockpile with one contract.
use rgb_std.Base.{
  ℕ, ◌==◌, true, none, some, List, [], ◌∷◌, if◌then◌else◌, contains, Result, ok, err,
}
use rgb_std.Host.{Host}
use rgb_std.Contract.Reader.{OperationSeals}
use rgb_std.Consignment.{ConsignmentHeader, Consignment}
use rgb_std.PileFs.{new}
use rgb_std.Stockpile.{Stockpile}
use rgb_std.StockpileDir.{FileSystem, StockpileDir, file, stockpile_dir}
use rgb_std.Contracts.{Contracts}
use rgb_std.Tests.Samples.{files, pile, ledger, contract, wire, two_witnesses}

abbrev without : ℕ → List ℕ → List ℕ
without p [] = []
without p (q ∷ disk) = if q == p then without p disk else q ∷ without p disk

abbrev pub host : Host pile ledger wire
host = record {
  Disk = List ℕ;
  Conf = ℕ;
  PileError = ℕ;
  Issuer = ℕ;
  Validator = Unit {0};
  check = λ a b. a == b;
  issuer_id = λ i. i;
  codex_id = λ i. i;
  codex_name = λ i. i;
  issue = λ i p. 77;
  confine = λ seals. some seals;
  new_ledger = λ disk a c. (c ∷ disk, ok []);
  load_ledger = λ disk c. if contains disk c then ok [] else err 5;
  config = λ log. 0;
  ledger_id = λ log. 3;
  new_pile = λ disk c. (disk, ok (new files));
  load_pile = λ disk c. ok two_witnesses;
  articles_id = λ a. a;
  genesis_opid = λ a. 10;
  articles_with = λ s i g v. ok 77;
  issue_with = λ v m c a. 0;
  upgrade_apis = λ log a. (log, ok tt);
  evaluate = λ read r c. some (c, ok tt);
}

-- A contract's path is its id.
abbrev pub file_system : FileSystem host
file_system = record {
  Entry = ℕ;
  Str = ℕ;
  read_dir = λ disk. ok [];
  file_type = λ e. ok file;
  extension = λ e. none;
  file_stem = λ e. none;
  split_once = λ s. none;
  parse_codex_id = λ s. none;
  parse_contract_id = λ s. none;
  issuer_path = λ name id. id;
  contract_path = λ name id. id;
  exists = λ disk p. ok (contains disk p);
  create_dir_all = λ disk p. (p ∷ disk, ok tt);
  remove_dir_all = λ disk p. (without p disk, ok tt);
  load_issuer = λ disk p. if contains disk p then some p else none;
  save_issuer = λ disk p i. (p ∷ disk, ok tt);
  already_exists = 6;
  not_found = 7;
  fs_error = λ e. e;
  spec_codex_id = λ i. i;
}

abbrev pub stockpile : Stockpile pile ledger wire
stockpile = stockpile_dir file_system

-- The contract 3 with the name 30, and the issuer 7.
abbrev pub directory : StockpileDir file_system
directory = record {
  consensus = 1;
  testnet = true;
  issuers = (7, 70) ∷ [];
  contracts = (3, 30) ∷ [];
  disk = 3 ∷ 7 ∷ [];
}

abbrev pub in_memory : Contracts stockpile
in_memory = record { issuers = []; contracts = (3, contract) ∷ []; persistence = directory }

abbrev pub one_operation : OperationSeals wire
one_operation = record { operation = 11; defined_seals = []; witness = none }

abbrev pub header : ConsignmentHeader wire
header = record {
  extensions = [];
  semantics = tt;
  sig = none;
  issue = 10;
  genesis_seals = (0, 8) ∷ [];
  witness = tt;
  op_count = 1;
}

abbrev pub decode_header : List ℕ → Result ℕ (ConsignmentHeader wire × List ℕ)
decode_header stream = ok (header, stream)

abbrev pub decode_operation : List ℕ → Result ℕ (OperationSeals wire × List ℕ)
decode_operation stream = ok (one_operation, stream)

abbrev pub consignment : Consignment wire
consignment = record { header = header; operation_seals = one_operation ∷ [] }
