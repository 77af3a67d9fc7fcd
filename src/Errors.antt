-- ===== src/Errors.antt =====
-- The error types of src/contracts.rs and src/contract.rs.
use rgb_std.Base.{ℕ}
use rgb_std.Seals.{RgbSeal}
use rgb_std.Ledger.{Ledger}
use rgb_std.Wire.{Wire}

pub data IssuerError (L : Ledger) : Type 0 where
  issuer_mismatch : IssuerError L
  consensus_mismatch : IssuerError L
  testnet_mismatch : IssuerError L
  mainnet_mismatch : IssuerError L
  unknown_codex : ℕ → IssuerError L
  inner : L.IssueError → IssuerError L

-- `Io` is left out, since a stream that cannot be read is an error of its decoder.
pub data ConsumeError {S : RgbSeal} (W : Wire S) (L : Ledger) : Type 0 where
  unknown_contract : ℕ → ConsumeError W L
  semantics : L.SemanticError → ConsumeError W L
  decode : W.DecodeError → ConsumeError W L
  verify : L.VerifyError → ConsumeError W L
  issue : IssuerError L → ConsumeError W L
