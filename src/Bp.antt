-- ===== src/Bp.antt =====
-- Payments over bitcoin, src/popls/bp.rs: the data of operation requests. What is used of the
-- bitcoin and invoice libraries is a parameter; script pubkeys, output numbers and outpoints are
-- numbers.
pub mod Api
pub mod Check
pub mod Balance
pub mod Checked
pub mod Conserved
pub mod Additive
pub mod Wallet
pub mod Prefab
pub mod Bundle
pub mod Bundling
pub mod Defined
pub mod Outputs
pub mod Prefabbed
pub mod Prefabs
pub mod BlankUses
pub mod Blanks
pub mod Bundled
pub mod Covered
pub mod Fulfill
pub mod Runs
pub mod Fulfilled
pub mod Owned
pub mod Accepted
pub mod Prepared
pub mod Returned
pub mod Panics
pub mod Include
pub mod Positions
pub mod Included
pub mod SealsFound
pub mod Received
pub mod Requests
pub mod Resolved
use rgb_std.Base.{ℕ, Option, List, Eq}
use rgb_std.Seals.{CellAddr}
use rgb_std.Contract.State.{Assignment}
use rgb_std.Contract.Params.{EitherSeal, NamedState}

-- The outputs that an invoice asks for, with their scripts and noise.
pub record Bitcoin : Type 1 where
  pub WitnessOut : Type 0
  pub Noise : Type 0
  pub Satisfaction : Type 0
  pub wout_eq : Eq WitnessOut
  pub script_pubkey : WitnessOut → ℕ
  pub noise : WitnessOut → Noise

module _ (B : Bitcoin) where
  pub record PrefabSeal : Type 0 where
    pub vout : ℕ
    pub noise : Option B.Noise

  pub record WoutAssignment : Type 0 where
    pub wout : B.WitnessOut
    pub sats : ℕ

  pub record UsedState : Type 0 where
    pub addr : CellAddr
    pub outpoint : ℕ
    pub satisfaction : Option B.Satisfaction

  pub record OpRequest (Value Atom T : Type 0) : Type 0 where
    pub contract_id : ℕ
    pub method : ℕ
    pub reading : List CellAddr
    pub using : List UsedState
    pub global : List (NamedState Atom)
    pub owned : List (NamedState (Assignment (EitherSeal T) Value))

  -- `WTxoSeal` with the output `primary` of the witness transaction, and noise.
  pub record WitnessSeal : Type 0 where
    pub primary : ℕ
    pub noise : B.Noise

pub data UnresolvedSeal : Type 0 where
  spk : ℕ → UnresolvedSeal
  change : UnresolvedSeal
