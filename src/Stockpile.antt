-- ===== src/Stockpile.antt =====
-- The trait `Stockpile` of src/stockpile.rs as a record of operations. A call that changes the store
-- returns it with the result, also where it fails;
-- `none` is a panic of the contract that is made.
use rgb_std.Base.{ℕ, Bool, Option, List, Result}
use rgb_std.Seals.{RgbSeal}
use rgb_std.Pile.{Pile}
use rgb_std.Ledger.{Ledger}
use rgb_std.Wire.{Wire}
use rgb_std.Contract.{Contract}
use rgb_std.Consignment.{Consignment}
use rgb_std.Errors.{IssuerError, ConsumeError}
use rgb_std.Base.Results.{MultiError}

pub record Stockpile {S : RgbSeal} (P : Pile S) (L : Ledger) (W : Wire S) : Type 1 where
  pub Store : Type 0
  pub Issuer : Type 0
  pub CreateParams : Type 0
  pub Error : Type 0
  pub PileError : Type 0
  pub codex_id : Issuer → ℕ
  pub params_consensus : CreateParams → ℕ
  pub params_testnet : CreateParams → Bool
  pub consensus : Store → ℕ
  pub is_testnet : Store → Bool
  pub issuers_count : Store → ℕ
  pub contracts_count : Store → ℕ
  pub has_issuer : Store → ℕ → Bool
  pub has_contract : Store → ℕ → Bool
  pub codex_ids : Store → List ℕ
  pub contract_ids : Store → List ℕ
  pub issuer : Store → ℕ → Option Issuer
  pub contract : Store → ℕ → Option (Contract P L)
  pub import_issuer : Store → Issuer → Store × Result Error Issuer
  pub import_contract :
      Store
      → L.Articles
      → Consignment W
      → Option
          (Store × Result (MultiError (ConsumeError W L) L.StockError PileError) (Contract P L))
  pub issue :
      Store
      → CreateParams
      → Option (Store × Result (MultiError (IssuerError L) L.StockError PileError) (Contract P L))
  pub purge : Store → ℕ → Store × Result Error (Unit {0})
