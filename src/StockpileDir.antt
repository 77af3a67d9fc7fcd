-- ===== src/StockpileDir.antt =====
-- `StockpileDir` of persistence/fs/src/stockpile.rs: a directory with a file for each issuer and a
-- directory for each contract. The file system, the names of paths and the issuer's own files are
-- parameters.
pub mod Load
pub mod Purged
pub mod Listed
pub mod Issuers
use rgb_std.Base.{
  ℕ, ◌≡◌, Bool, true, false, not, ◌&&◌, ◌||◌, Option, none, some, List, [], ◌∷◌, ◌==◌,
  if◌then◌else◌, ◌>>=◌, length, lookup, keys, insert, is_some, Result, ok, err,
}
use rgb_std.Base.Results.{MultiError, in_a, in_b, in_c}
use rgb_std.Seals.{RgbSeal}
use rgb_std.Pile.{Pile}
use rgb_std.Ledger.{Ledger}
use rgb_std.Wire.{Wire}
use rgb_std.Host.{Host}
use rgb_std.Errors.{IssuerError, ConsumeError, unknown_codex}
use rgb_std.Contract.{Contract}
use rgb_std.Contract.New.{Params, Issued, Imported, issue, with_consignment, load}
use rgb_std.Contract.Sync.{same_bool}
use rgb_std.Consignment.{Consignment}
use rgb_std.Stockpile.{Stockpile}

pub data FileType : Type 0 where
  file : FileType
  dir : FileType
  other_type : FileType

pub data Extension : Type 0 where
  issuer_file : Extension
  contract_dir : Extension
  other_extension : Extension

-- The errors of the file system are those of the pile, `io::Error`.
pub record FileSystem {S : RgbSeal} {P : Pile S} {L : Ledger} {W : Wire S} (H : Host P L W)
    : Type 1 where
  pub Entry : Type 0
  pub Str : Type 0
  pub read_dir : H.Disk → Result H.PileError (List (Result H.PileError Entry))
  pub file_type : Entry → Result H.PileError FileType
  pub extension : Entry → Option Extension
  pub file_stem : Entry → Option Str
  -- `split_once('.')`.
  pub split_once : Str → Option (ℕ × Str)
  pub parse_codex_id : Str → Option ℕ
  pub parse_contract_id : Str → Option ℕ
  -- `{name}.{codex_id:#}.issuer` and `{name}.{contract_id:-}.contract` in the directory.
  pub issuer_path : ℕ → ℕ → H.Conf
  pub contract_path : ℕ → ℕ → H.Conf
  pub exists : H.Disk → H.Conf → Result H.PileError Bool
  pub create_dir_all : H.Disk → H.Conf → H.Disk × Result H.PileError (Unit {0})
  pub remove_dir_all : H.Disk → H.Conf → H.Disk × Result H.PileError (Unit {0})
  pub load_issuer : H.Disk → H.Conf → Option H.Issuer
  pub save_issuer : H.Disk → H.Conf → H.Issuer → H.Disk × Result H.PileError (Unit {0})
  pub already_exists : H.PileError
  pub not_found : H.PileError
  -- `From<io::Error> for FsError`, and the codex id of an `IssuerSpec`.
  pub fs_error : H.PileError → L.StockError
  pub spec_codex_id : ℕ → ℕ

module _ {S : RgbSeal} {P : Pile S} {L : Ledger} {W : Wire S} {H : Host P L W}
    (D : FileSystem H) where
  pub record StockpileDir : Type 0 where
    pub consensus : ℕ
    pub testnet : Bool
    -- Names by ids.
    pub issuers : List (ℕ × ℕ)
    pub contracts : List (ℕ × ℕ)
    pub disk : H.Disk

  pub get_contract_dir : StockpileDir → ℕ → Option H.Conf
  get_contract_dir d contract_id = do
    subdir ← lookup contract_id d.contracts
    some (D.contract_path subdir contract_id)

  abbrev pub created :
      H.Conf → H.Disk × Result H.PileError (Unit {0}) → H.Disk × Result H.PileError H.Conf
  created path (disk, err e) = (disk, err e)
  created path (disk, ok _) = (disk, ok path)

  unfoldable pub create_contract_dir : H.Disk → L.Articles → H.Disk × Result H.PileError H.Conf
  create_contract_dir disk articles =
      let path = D.contract_path (L.name articles) (H.articles_id articles) in
      elim (D.exists disk path) [
        | err e ↦ (disk, err e)
        | ok true ↦ (disk, err D.already_exists)
        | ok false ↦ created path (D.create_dir_all disk path)
      ]

  unfoldable pub has_contract : StockpileDir → ℕ → Bool
  has_contract d contract_id = is_some (lookup contract_id d.contracts)

  unfoldable pub issuer : StockpileDir → ℕ → Option H.Issuer
  issuer d codex_id = do
    name ← lookup codex_id d.issuers
    D.load_issuer d.disk (D.issuer_path name codex_id)

  abbrev pub checked :
      StockpileDir
      → Result (MultiError L.StockError H.PileError ⊥) (Contract P L)
      → Option (Contract P L)
  checked d (err e) = none
  checked d (ok contract) =
      let articles = L.articles contract.ledger in
      if not (L.consensus articles == d.consensus) || not (same_bool (L.testnet articles) d.testnet)
      then none
      else some contract

  pub contract : StockpileDir → ℕ → Option (Contract P L)
  unfolding get_contract_dir
  contract d contract_id = do
    path ← get_contract_dir d contract_id
    checked d (load H d.disk path path)

  abbrev pub saved_issuer :
      StockpileDir
      → H.Issuer
      → H.Disk × Result H.PileError (Unit {0})
      → StockpileDir × Result H.PileError H.Issuer
  saved_issuer d i (disk, err e) = (record d { disk = disk }, err e)
  saved_issuer d i (disk, ok _) =
      (record d { disk = disk; issuers = insert (H.codex_id i) (H.codex_name i) d.issuers }, ok i)

  pub import_issuer : StockpileDir → H.Issuer → StockpileDir × Result H.PileError H.Issuer
  import_issuer d i =
      saved_issuer d i (D.save_issuer d.disk (D.issuer_path (H.codex_name i) (H.codex_id i)) i)

  -- The new contract is listed under its id.
  abbrev pub listed {ℓ} :
      {E : Type ℓ}
      → StockpileDir
      → H.Disk × Result E (Contract P L)
      → StockpileDir × Result E (Contract P L)
  listed d (disk, err e) = (record d { disk = disk }, err e)
  listed d (disk, ok c) = (
    record d {
      disk = disk;
      contracts = insert c.contract_id (L.name (L.articles c.ledger)) d.contracts;
    },
    ok c,
  )

  abbrev pub import_at :
      L.Articles → Consignment W → H.Disk × Result H.PileError H.Conf → Option (Imported H)
  import_at articles consignment (disk, err e) = some (disk, err (in_c e))
  import_at articles consignment (disk, ok path) = with_consignment H disk articles consignment path

  unfoldable pub import_contract :
      StockpileDir
      → L.Articles
      → Consignment W
      → Option (
          StockpileDir
          × Result (MultiError (ConsumeError W L) L.StockError H.PileError) (Contract P L))
  import_contract d articles consignment = do
    imported ← import_at articles consignment (create_contract_dir d.disk articles)
    some (listed d imported)

  -- `|articles| Ok(self.create_contract_dir(articles)?)`.
  abbrev pub as_stock_error :
      H.Disk × Result H.PileError H.Conf → H.Disk × Result L.StockError H.Conf
  as_stock_error (disk, err e) = (disk, err (D.fs_error e))
  as_stock_error (disk, ok path) = (disk, ok path)

  unfoldable pub issue_contract :
      StockpileDir
      → Params H
      → Option (
          StockpileDir
          × Result (MultiError (IssuerError L) L.StockError H.PileError) (Contract P L))
  issue_contract d params = elim (issuer d (D.spec_codex_id params.issuer)) [
    | none ↦ some (d, err (in_a (unknown_codex (D.spec_codex_id params.issuer))))
    | some schema ↦
        issue H d.disk schema params
          (λ disk articles. as_stock_error (create_contract_dir disk articles))
        >>= λ issued. some (listed d issued)
  ]

  abbrev pub removed :
      StockpileDir
      → H.Disk × Result H.PileError (Unit {0})
      → StockpileDir × Result H.PileError (Unit {0})
  removed d (disk, res) = (record d { disk = disk }, res)

  pub purge : StockpileDir → ℕ → StockpileDir × Result H.PileError (Unit {0})
  purge d contract_id = elim (get_contract_dir d contract_id) [
    | none ↦ (d, err D.not_found)
    | some path ↦ removed d (D.remove_dir_all d.disk path)
  ]

  -- `impl Stockpile for StockpileDir`.
  abbrev pub stockpile_dir : Stockpile P L W
  stockpile_dir = record {
    Store = StockpileDir;
    Issuer = H.Issuer;
    CreateParams = Params H;
    Error = H.PileError;
    PileError = H.PileError;
    codex_id = H.codex_id;
    params_consensus = λ params. params.consensus;
    params_testnet = λ params. params.testnet;
    consensus = λ d. d.consensus;
    is_testnet = λ d. d.testnet;
    issuers_count = λ d. length d.issuers;
    contracts_count = λ d. length d.contracts;
    has_issuer = λ d codex_id. is_some (lookup codex_id d.issuers);
    has_contract = has_contract;
    codex_ids = λ d. keys d.issuers;
    contract_ids = λ d. keys d.contracts;
    issuer = issuer;
    contract = contract;
    import_issuer = import_issuer;
    import_contract = import_contract;
    issue = issue_contract;
    purge = purge;
  }
