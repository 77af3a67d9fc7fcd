-- ===== src/Contract/Reader.antt =====
-- `OpReader` of src/contract.rs: operations read from a consignment stream, the genesis first, then
-- a count, then as many operations.
pub mod Count
use rgb_std.Base.{
  ℕ, zero, suc, ◌-◌, ◌^◌, Option, none, some, List, ◌==◌, if◌then◌else◌, Result, ok, err,
}
use rgb_std.Base.Results.{◌>>=◌}
use rgb_std.Seals.{RgbSeal, SealWitness}
use rgb_std.Wire.{Wire}

abbrev pub u32_max : ℕ
u32_max = 2 ^ 32 - 1

-- `OperationSeals` of rgb-core.
pub record OperationSeals {S : RgbSeal} (W : Wire S) : Type 0 where
  pub operation : W.Operation
  pub defined_seals : List (ℕ × S.Definition)
  pub witness : Option (SealWitness S)

pub record OpReader {S : RgbSeal} (W : Wire S) : Type 0 where
  pub stream : W.Stream
  pub count : ℕ

module _ {S : RgbSeal} (W : Wire S) (seal_resolver : W.Operation → List (ℕ × S.Definition)) where
  abbrev pub or_too_many : {A : Type 0} → ℕ → Option A → Result W.DecodeError A
  or_too_many opid none = err (W.too_many_seals opid)
  or_too_many opid (some a) = ok a

  -- The three parts of an operation, with the seals of the wallet.
  unfoldable pub read_item : W.Stream → Result W.DecodeError (OperationSeals W × W.Stream)
  read_item stream = do
    read ← W.operation stream
    let (operation, stream1) = read
    read1 ← W.seals stream1
    let (seals, stream2) = read1
    defined_seals ← or_too_many (W.opid operation) (W.extend seals (seal_resolver operation))
    read2 ← W.witness stream2
    let (witness, stream3) = read2
    ok (record { operation = operation; defined_seals = defined_seals; witness = witness }, stream3)

  -- The count is read after the genesis, which `u32::MAX` signals, and counts down from then on.
  pub next_count : ℕ → W.Stream → Result W.DecodeError (ℕ × W.Stream)
  next_count count stream = if count == u32_max then W.u32 stream else ok (count - 1, stream)

  pub read_operation : OpReader W → Result W.DecodeError (Option (OperationSeals W) × OpReader W)
  read_operation r = if r.count == 0 then ok (none, r) else do
    read ← read_item r.stream
    let (op, stream1) = read
    read1 ← next_count r.count stream1
    let (count, stream2) = read1
    ok (some op, record { stream = stream2; count = count })
