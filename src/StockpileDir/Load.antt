-- ===== src/StockpileDir/Load.antt =====
-- `StockpileDir::load` of persistence/fs/src/stockpile.rs: which issuers and contracts a directory
-- lists.
use rgb_std.Base.{ℕ, Bool, Option, none, some, List, [], ◌∷◌, ◌>>=◌, insert, Result, ok, err}
use rgb_std.Seals.{RgbSeal}
use rgb_std.Pile.{Pile}
use rgb_std.Ledger.{Ledger}
use rgb_std.Wire.{Wire}
use rgb_std.Host.{Host}
use rgb_std.StockpileDir.{
  FileType, file, dir, Extension, issuer_file, contract_dir, FileSystem, StockpileDir,
}

module _ {S : RgbSeal} {P : Pile S} {L : Ledger} {W : Wire S} {H : Host P L W}
    (D : FileSystem H) where
  abbrev pub Names : Type 0
  Names = List (ℕ × ℕ) × List (ℕ × ℕ)

  abbrev pub note_issuer : Option ℕ → ℕ → Names → Names
  note_issuer none name names = names
  note_issuer (some id) name (issuers, contracts) = (insert id name issuers, contracts)

  abbrev pub note_contract : Option ℕ → ℕ → Names → Names
  note_contract none name names = names
  note_contract (some id) name (issuers, contracts) = (issuers, insert id name contracts)

  -- The two branches on the type of the file and the extension.
  abbrev pub note_entry : FileType → Extension → ℕ → D.Str → Names → Names
  note_entry file issuer_file name id_str names = note_issuer (D.parse_codex_id id_str) name names
  note_entry dir contract_dir name id_str names =
      note_contract (D.parse_contract_id id_str) name names
  note_entry _ _ name id_str names = names

  -- The three `let … else { continue }`.
  abbrev pub read_name : FileType → Option Extension → Option (ℕ × D.Str) → Names → Names
  read_name ty (some extension) (some (name, id_str)) names =
      note_entry ty extension name id_str names
  read_name ty _ _ names = names

  unfoldable pub read_entry : D.Entry → Names → Result H.PileError Names
  read_entry entry names = elim (D.file_type entry) [
    | err e ↦ err e
    | ok ty ↦ ok (read_name ty (D.extension entry) (D.file_stem entry >>= D.split_once) names)
  ]

  unfoldable pub read_entries : List (Result H.PileError D.Entry) → Names → Result H.PileError Names
  read_entries [] names = ok names
  read_entries (err e ∷ entries) names = err e
  read_entries (ok entry ∷ entries) names = elim (read_entry entry names) [
    | err e ↦ err e
    | ok names' ↦ read_entries entries names'
  ]

  abbrev pub loaded :
      H.Disk → ℕ → Bool → Result H.PileError Names → Result H.PileError (StockpileDir D)
  loaded disk consensus testnet (err e) = err e
  loaded disk consensus testnet (ok (issuers, contracts)) = ok (record {
    consensus = consensus;
    testnet = testnet;
    issuers = issuers;
    contracts = contracts;
    disk = disk;
  })

  -- `StockpileDir::load`.
  unfoldable pub load_dir : H.Disk → ℕ → Bool → Result H.PileError (StockpileDir D)
  load_dir disk consensus testnet = elim (D.read_dir disk) [
    | err e ↦ err e
    | ok entries ↦ loaded disk consensus testnet (read_entries entries ([], []))
  ]
