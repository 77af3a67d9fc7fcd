-- ===== src/Contract.antt =====
-- The struct `Contract` of src/contract.rs: a ledger beside a pile.
pub mod Status
pub mod Sync
pub mod Include
pub mod State
pub mod Reader
pub mod Export
pub mod Call
pub mod New
pub mod Consume
pub mod Params
use rgb_std.Base.{ℕ}
use rgb_std.Seals.{RgbSeal}
use rgb_std.Pile.{Pile}
use rgb_std.Ledger.{Ledger}

pub record Contract {S : RgbSeal} (P : Pile S) (L : Ledger) : Type 0 where
  pub contract_id : ℕ
  pub ledger : L.Log
  pub pile : P.Store
