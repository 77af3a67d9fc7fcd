-- ===== src/Invoice.antt =====
-- The invoices of invoice/src/lib.rs: beneficiaries and contract queries, as text. A text is the
-- list of the codes of its characters.
pub mod Text
pub mod Wout
pub mod RoundTrip
pub mod Parsed
pub mod Queries
use rgb_std.Base.{
  ℕ, Bool, true, false, Option, none, some, List, [], ◌∷◌, ◌++◌, if◌then◌else◌, is_some, length,
  Result, ok, err,
}
use rgb_std.Base.Results.{map_err}
use rgb_std.Invoice.Text.{strip_prefix, trim_start_matches, testnet}

-- The parsers and printers of hypersonic, and those of invoice/src/bp.rs for outputs.
pub record Formats : Type 1 where
  pub WitnessOut : Type 0
  pub WitnessOutError : Type 0
  pub Baid64ParseError : Type 0
  pub Consensus : Type 0
  pub token_from_str : List ℕ → Option ℕ
  pub token_display : ℕ → List ℕ
  pub wout_from_str : List ℕ → Result WitnessOutError WitnessOut
  pub wout_display : WitnessOut → List ℕ
  pub consensus_from_str : List ℕ → Option Consensus
  pub consensus_display : Consensus → List ℕ

pub data RgbBeneficiary (WitnessOut : Type 0) : Type 0 where
  to_token : ℕ → RgbBeneficiary WitnessOut
  to_wout : WitnessOut → RgbBeneficiary WitnessOut

unfoldable witness_out : {WitnessOut : Type 0} → RgbBeneficiary WitnessOut → Option WitnessOut
witness_out (to_wout wout) = some wout
witness_out (to_token auth) = none

-- The other variants are of no parser here.
pub data ParseInvoiceError (Baid64ParseError WitnessOutError : Type 0) : Type 0 where
  no_scheme : ParseInvoiceError Baid64ParseError WitnessOutError
  unrecognizable : Baid64ParseError → ParseInvoiceError Baid64ParseError WitnessOutError
  bp : WitnessOutError → ParseInvoiceError Baid64ParseError WitnessOutError

module _ (F : Formats) where
  pub record ContractQuery : Type 0 where
    pub consensus : F.Consensus
    pub testnet : Bool

  abbrev as_wout :
      Result F.WitnessOutError F.WitnessOut
      → Result
          (ParseInvoiceError F.Baid64ParseError F.WitnessOutError)
          (RgbBeneficiary F.WitnessOut)
  as_wout (ok wout) = ok (to_wout wout)
  as_wout (err e) = err (bp e)

  -- With the `bitcoin` feature.
  unfoldable beneficiary_from_str :
      List ℕ
      → Result
          (ParseInvoiceError F.Baid64ParseError F.WitnessOutError)
          (RgbBeneficiary F.WitnessOut)
  beneficiary_from_str s = elim (F.token_from_str s) [
    | some auth ↦ ok (to_token auth)
    | none ↦ as_wout (F.wout_from_str s)
  ]

  unfoldable beneficiary_display : RgbBeneficiary F.WitnessOut → List ℕ
  beneficiary_display (to_token auth) = F.token_display auth
  beneficiary_display (to_wout wout) = F.wout_display wout

  pub query_display : ContractQuery → List ℕ
  query_display query =
      if query.testnet
      then testnet ++ F.consensus_display query.consensus
      else F.consensus_display query.consensus

  abbrev with_testnet : Bool → Option F.Consensus → Option ContractQuery
  with_testnet is_testnet none = none
  with_testnet is_testnet (some consensus) =
      some (record { consensus = consensus; testnet = is_testnet })

  -- `none` is the error of the consensus.
  pub query_from_str : List ℕ → Option ContractQuery
  query_from_str s =
      with_testnet (is_some (strip_prefix testnet s))
        (F.consensus_from_str (trim_start_matches (length s) testnet s))
