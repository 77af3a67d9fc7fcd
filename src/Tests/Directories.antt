-- ===== src/Tests/Directories.antt =====
-- The theorem on a directory that is loaded at a concrete input.
use rgb_std.Base.{
  ℕ, ◌≡◌, refl, true, some, List, [], ◌∷◌, map, ◌*◌, ◌==◌, if◌then◌else◌, lookup, insert, is_some,
  Result, ok,
}
use rgb_std.StockpileDir.{
  FileSystem, StockpileDir, file, dir, issuer_file, contract_dir, other_extension,
}
use rgb_std.StockpileDir.Load.{read_entry, read_entries, load_dir}
use rgb_std.StockpileDir.Listed.{IsNamed, issuer_entry, contract_entry, load_dir-IsNamed}
use rgb_std.Tests.Hosts.{host, file_system}

-- The file 7 of an issuer, the directory 3 of a contract, and the directory 4 of something else.
abbrev three_entries : FileSystem host
three_entries = record file_system {
  read_dir = λ disk. ok (ok 7 ∷ ok 3 ∷ ok 4 ∷ []);
  file_type = λ e. if e == 7 then ok file else ok dir;
  extension = λ e.
      if e == 7
      then some issuer_file
      else if e == 3
      then some contract_dir
      else some other_extension;
  file_stem = λ e. some e;
  split_once = λ s. some (s * 10, s);
  parse_codex_id = λ s. some s;
  parse_contract_id = λ s. some s;
}

abbrev found : StockpileDir three_entries
found = record {
  consensus = 1;
  testnet = true;
  issuers = (7, 70) ∷ [];
  contracts = (3, 30) ∷ [];
  disk = 3 ∷ 7 ∷ [];
}

loads : load_dir three_entries (3 ∷ 7 ∷ []) 1 true ≡ ok found
unfolding load_dir read_entries read_entry insert
loads = refl

load_dir-IsNamed_example :
    (found.consensus ≡ 1)
    × (found.testnet ≡ true)
    × ((es : List ℕ) × (◌≡◌ {A = Result ℕ (List (Result ℕ ℕ))}
          (ok (ok 7 ∷ ok 3 ∷ ok 4 ∷ []))
          (ok (map ok es)))
        × ((id name : ℕ)
            → lookup id found.issuers ≡ some name
            → IsNamed (issuer_entry three_entries) es id name)
        × ((id name : ℕ)
            → IsNamed (issuer_entry three_entries) es id name
            → is_some (lookup id found.issuers) ≡ true)
        × ((id name : ℕ)
            → lookup id found.contracts ≡ some name
            → IsNamed (contract_entry three_entries) es id name)
        × ((id name : ℕ)
            → IsNamed (contract_entry three_entries) es id name
            → is_some (lookup id found.contracts) ≡ true))
load_dir-IsNamed_example = load_dir-IsNamed three_entries (3 ∷ 7 ∷ []) 1 true found loads
