-- ===== src/Host.antt =====
-- What src/contract.rs and persistence/fs/src/stockpile.rs call of hypersonic and rgb-core to make,
-- load and evaluate a contract, taken as a parameter. The disk is a state that the calls pass on,
-- as far as contracts are made, loaded and removed; what a contract writes to its own files
-- afterwards is its ledger and its pile.
use rgb_std.Base.{ℕ, Bool, Option, List, Result}
use rgb_std.Base.Results.{MultiError}
use rgb_std.Seals.{RgbSeal}
use rgb_std.Pile.{Pile}
use rgb_std.Ledger.{Ledger}
use rgb_std.Wire.{Wire}
use rgb_std.Contract.{Contract}
use rgb_std.Contract.Reader.{OperationSeals}
use rgb_std.Contract.Params.{IssueParams}

pub record Host {S : RgbSeal} (P : Pile S) (L : Ledger) (W : Wire S) : Type 1 where
  pub Disk : Type 0
  pub Conf : Type 0
  pub PileError : Type 0
  pub Issuer : Type 0
  -- A validator for the signature of the issuer.
  pub Validator : Type 0
  -- `IssuerSpec::check`, by the ids.
  pub check : ℕ → ℕ → Bool
  pub issuer_id : Issuer → ℕ
  pub codex_id : Issuer → ℕ
  pub codex_name : Issuer → ℕ
  pub issue : Issuer → IssueParams L.Value L.Atom → L.Articles
  -- `SmallOrdMap::try_from_iter`, where `none` says that there are too many.
  pub confine : List (ℕ × S.Definition) → Option (List (ℕ × S.Definition))
  pub new_ledger :
      Disk → L.Articles → Conf → Disk × Result (MultiError L.IssueError L.StockError ⊥) L.Log
  pub load_ledger : Disk → Conf → Result L.StockError L.Log
  pub config : L.Log → Conf
  pub ledger_id : L.Log → ℕ
  pub new_pile : Disk → Conf → Disk × Result PileError P.Store
  pub load_pile : Disk → Conf → Result PileError P.Store
  pub articles_id : L.Articles → ℕ
  pub genesis_opid : L.Articles → ℕ
  -- `Articles::with` at the parts that a stream has, and at those of a consignment.
  pub articles_with :
      W.Semantics → W.Issue → Option W.SigBlob → Validator → Result L.SemanticError L.Articles
  pub issue_with : W.Version → W.ContractMeta → W.Codex → L.Articles → W.Issue
  pub upgrade_apis :
      L.Log → L.Articles → L.Log × Result (MultiError L.SemanticError L.StockError ⊥) (Unit {0})
  -- `ContractApi::evaluate`, for any reader of operations. It validates and applies them one by one,
  -- so it may have changed the contract where it fails; `none` is a panic.
  pub evaluate :
      {R : Type 0}
      → (R → Result W.DecodeError (Option (OperationSeals W) × R))
      → R
      → Contract P L
      → Option (Contract P L × Result L.VerifyError (Unit {0}))
