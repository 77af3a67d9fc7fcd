-- ===== src/Wire.antt =====
-- What src/contract.rs and src/consignment.rs use of strict encoding and of the data types of
-- hypersonic that they read from a stream, taken as a parameter.
use rgb_std.Base.{ℕ, Bool, Option, List, Result}
use rgb_std.Seals.{RgbSeal, SealWitness}

pub record Wire (S : RgbSeal) : Type 1 where
  pub Stream : Type 0
  pub DecodeError : Type 0
  pub Operation : Type 0
  pub Semantics : Type 0
  pub SigBlob : Type 0
  pub Version : Type 0
  pub ContractMeta : Type 0
  pub Codex : Type 0
  pub Issue : Type 0
  pub opid : Operation → ℕ
  -- `strict_decode` at the type of that name.
  pub u8 : Stream → Result DecodeError (ℕ × Stream)
  pub u16 : Stream → Result DecodeError (ℕ × Stream)
  pub u32 : Stream → Result DecodeError (ℕ × Stream)
  pub operation : Stream → Result DecodeError (Operation × Stream)
  pub seals : Stream → Result DecodeError (List (ℕ × S.Definition) × Stream)
  pub witness : Stream → Result DecodeError (Option (SealWitness S) × Stream)
  pub semantics : Stream → Result DecodeError (Semantics × Stream)
  pub sig : Stream → Result DecodeError (Option SigBlob × Stream)
  pub version : Stream → Result DecodeError (Version × Stream)
  pub meta : Stream → Result DecodeError (ContractMeta × Stream)
  pub codex : Stream → Result DecodeError (Codex × Stream)
  -- Skips so many bytes.
  pub read_raw : ℕ → Stream → Result DecodeError (Unit {0} × Stream)
  -- `SmallOrdMap::extend`, where `none` says that the map would be too large, and the error that is
  -- then returned for an operation.
  pub extend : List (ℕ × S.Definition) → List (ℕ × S.Definition) → Option (List (ℕ × S.Definition))
  pub too_many_seals : ℕ → DecodeError
  -- `ReservedBytes::<1, VERSION>` and `ContractId`.
  pub reserved : ℕ → Stream → Result DecodeError (Unit {0} × Stream)
  pub contract_id : Stream → Result DecodeError (ℕ × Stream)
  -- Whether an error is a `DataIntegrityError`, and two of those.
  pub is_integrity : DecodeError → Bool
  pub future_version : DecodeError
  pub too_many_ops : ℕ → DecodeError
  -- The genesis of an issue as an operation, by `to_operation` at the codex id.
  pub genesis_operation : Issue → Operation
