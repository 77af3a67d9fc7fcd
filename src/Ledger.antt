-- ===== src/Ledger.antt =====
-- What src/contract.rs and src/contracts.rs use of `Ledger` and `Articles` of hypersonic, taken as a
-- parameter.
use rgb_std.Base.{ℕ, Bool, List, Option, Result}
use rgb_std.Seals.{CellAddr}

-- A call that fails may have changed the ledger: it returns the ledger with the result.
pub record Ledger : Type 1 where
  pub Log : Type 0
  -- `MultiError<AcceptError, S::Error>`.
  pub Error : Type 0
  -- The values of `StrictVal` and `StateAtom`.
  pub Value : Type 0
  pub Atom : Type 0
  -- `S::Error`, and the errors of hypersonic and rgb-core that are passed on.
  pub StockError : Type 0
  pub IssueError : Type 0
  pub SemanticError : Type 0
  pub VerifyError : Type 0
  pub Articles : Type 0
  pub CallParams : Type 0
  pub Operation : Type 0
  pub VerifiedOperation : Type 0
  pub rollback : Log → List ℕ → Log × Result Error (Unit {0})
  pub forward : Log → List ℕ → Log × Result Error (Unit {0})
  -- The id of the new operation.
  pub call : Log → CallParams → Log × Result Error ℕ
  pub operation : Log → ℕ → Operation
  pub commit_transaction : Log → Log
  pub apply : Log → VerifiedOperation → Log × Result StockError (Unit {0})
  pub is_valid : Log → ℕ → Bool
  pub ancestors : Log → ℕ → List ℕ
  -- `state().main`, by the names of the states, and `state().raw.auth`.
  pub owned : Log → List (ℕ × List (CellAddr × Value))
  pub global : Log → List (ℕ × List (CellAddr × Atom))
  pub aggregated : Log → List (ℕ × Value)
  pub auth : Log → ℕ → Option CellAddr
  -- `articles()`, and the `meta` of their issue.
  pub articles : Log → Articles
  pub name : Articles → ℕ
  pub consensus : Articles → ℕ
  pub testnet : Articles → Bool
