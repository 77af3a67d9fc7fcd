-- ===== src/Contract/Export.antt =====
-- The queries of `Contract` of src/contract.rs, and what it writes for each operation of a stream that
-- hypersonic exports.
pub mod ReadBack
pub mod Stream
pub mod Streamed
use rgb_std.Base.{
  ℕ, Bool, true, false, Option, none, some, List, [], ◌∷◌, ◌>>=◌, is_some, Result, ok, err,
}
use rgb_std.Base.Results.{◌>>=◌ as bind}
use rgb_std.Seals.{RgbSeal, Witness, SealWitness, CellAddr, OpRels}
use rgb_std.Pile.{Pile}
use rgb_std.Ledger.{Ledger}
use rgb_std.Wire.{Wire}
use rgb_std.Contract.{Contract}
use rgb_std.Contract.Status.{retrieve}
use rgb_std.Contract.Include.{include}

-- A strict writer and the encoders of the parts of an operation; what `write` is given is appended
-- to the output. The two exports are of the ledger of hypersonic, which calls `aux` after each
-- operation.
pub record Writing {S : RgbSeal} (L : Ledger) (W : Wire S) : Type 1 where
  pub Writer : Type 0
  pub IoError : Type 0
  pub write : Writer → W.Stream → Result IoError Writer
  pub encode_seals : List (ℕ × S.Definition) → W.Stream
  pub encode_bool : Bool → W.Stream
  pub encode_witness : SealWitness S → W.Stream
  -- `destructible_out.len_u16()`.
  pub outputs : L.Operation → ℕ
  -- The operations after the genesis.
  pub operations : L.Log → List (ℕ × L.Operation)
  pub export_all_aux :
      L.Log
      → Writer
      → (ℕ → L.Operation → Writer → Option (Result IoError Writer))
      → Option (Result IoError Writer)
  pub export_aux :
      L.Log
      → List ℕ
      → Writer
      → (ℕ → L.Operation → Writer → Option (Result IoError Writer))
      → Option (Result IoError Writer)

module _ {S : RgbSeal} (P : Pile S) (L : Ledger) where
  unfoldable op_seals : Contract P L → ℕ → ℕ → OpRels S
  op_seals c opid up_to = P.op_relations c.pile opid up_to

  unfoldable seal : Contract P L → S.Definition → Option CellAddr
  seal c definition = L.auth c.ledger (S.auth_token definition)

  unfoldable witness_ids : Contract P L → List ℕ
  witness_ids c = P.witness_ids c.pile

  unfoldable witnesses : Contract P L → Option (List (Witness S))
  witnesses c = P.witnesses c.pile

  unfoldable ops_by_witness_id : Contract P L → ℕ → List ℕ
  ops_by_witness_id c wid = P.ops_by_witness_id c.pile wid

  -- `ContractApi::is_known` and `ContractApi::apply_operation`; an error of the ledger is a panic.
  unfoldable is_known : Contract P L → ℕ → Bool
  is_known c opid = L.is_valid c.ledger opid

  abbrev expect_applied :
      Contract P L → L.Log × Result L.StockError (Unit {0}) → Option (Contract P L)
  expect_applied c (log, err e) = none
  expect_applied c (log, ok _) = some (record c { ledger = log })

  unfoldable apply_operation : Contract P L → L.VerifiedOperation → Option (Contract P L)
  apply_operation c op = expect_applied c (L.apply c.ledger op)

  -- `ContractApi::apply_seals` and `ContractApi::apply_witness`; `none` is a panic of the pile.
  unfoldable apply_seals : Contract P L → ℕ → List (ℕ × S.Definition) → Option (Contract P L)
  apply_seals c opid seals =
      P.add_seals c.pile opid seals >>= λ pile. some (record c { pile = pile })

  unfoldable apply_witness : Contract P L → ℕ → SealWitness S → Option (Contract P L)
  apply_witness c opid witness = include P c opid witness.client witness.published

  module _ {W : Wire S} (X : Writing L W) where
    abbrev operations_of : Contract P L → List (ℕ × L.Operation) → List (ℕ × L.Operation × OpRels S)
    operations_of c [] = []
    operations_of c ((opid, op) ∷ ops) =
        (opid, op, P.op_relations c.pile opid (X.outputs op)) ∷ operations_of c ops

    unfoldable operations : Contract P L → List (ℕ × L.Operation × OpRels S)
    operations c = operations_of c (X.operations c.ledger)

    abbrev pub Written : Type 0
    Written = Result X.IoError X.Writer

    abbrev pub write_witness : Option (SealWitness S) → X.Writer → Written
    write_witness none writer = ok writer
    write_witness (some witness) writer = X.write writer (X.encode_witness witness)

    unfoldable pub aux : Contract P L → ℕ → L.Operation → X.Writer → Option Written
    aux c opid op writer =
        let seals = P.seals c.pile opid (X.outputs op) in
        elim (X.write writer (X.encode_seals seals)) [
          | err e ↦ some (err e)
          | ok writer1 ↦ retrieve P c.pile opid >>= λ witness.
              some
                (bind (X.write writer1 (X.encode_bool (is_some witness))) (write_witness witness))
        ]

    pub export : Contract P L → X.Writer → Option Written
    unfolding aux
    export c writer = X.export_all_aux c.ledger writer (aux c)

    unfoldable pub consign : Contract P L → List ℕ → X.Writer → Option Written
    unfolding aux
    consign c terminals writer = X.export_aux c.ledger terminals writer (aux c)
