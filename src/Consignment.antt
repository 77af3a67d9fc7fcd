-- ===== src/Consignment.antt =====
-- src/consignment.rs: a consignment, its operations in memory, and the start of its stream. The
-- decoders that are derived, of the header and of an operation with its seals, are parameters.
use rgb_std.Base.{
  ℕ, zero, suc, ◌^◌, ◌-◌, ◌≤◌, ◌<◌, ◌≡◌, refl, inl, inr, Option, none, some, List, [], ◌∷◌, arith,
  ltb, if◌then◌else◌, length, Result, ok, err,
}
use rgb_std.Base.Results.{◌>>=◌, map_err, Result-cases}
use rgb_std.Seals.{RgbSeal}
use rgb_std.Wire.{Wire}
use rgb_std.Contract.Reader.{OperationSeals}

abbrev pub max_consignment_ops : ℕ
max_consignment_ops = 2 ^ 16 - 1

abbrev pub consign_version : ℕ
consign_version = 0

module _ {S : RgbSeal} (W : Wire S) where
  pub record ConsignmentHeader : Type 0 where
    pub extensions : List (List ℕ)
    pub semantics : W.Semantics
    pub sig : Option W.SigBlob
    pub issue : W.Issue
    pub genesis_seals : List (ℕ × S.Definition)
    pub witness : Unit {0}
    pub op_count : ℕ

  pub record Consignment : Type 0 where
    pub header : ConsignmentHeader
    pub operation_seals : List (OperationSeals W)

  module _ (decode_header : W.Stream → Result W.DecodeError (ConsignmentHeader × W.Stream))
      (decode_operation : W.Stream → Result W.DecodeError (OperationSeals W × W.Stream)) where
    -- `for _ in 0..op_count`.
    unfoldable pub decode_operations :
        ℕ → W.Stream → Result W.DecodeError (List (OperationSeals W) × W.Stream)
    decode_operations zero stream = ok ([], stream)
    decode_operations (suc n) stream = do
      read ← decode_operation stream
      rest ← decode_operations n read.1
      ok (read.0 ∷ rest.0, rest.1)

    unfoldable pub strict_decode : W.Stream → Result W.DecodeError (Consignment × W.Stream)
    unfolding decode_operations
    strict_decode stream = do
      read ← decode_header stream
      (if ltb max_consignment_ops read.0.op_count then err (W.too_many_ops read.0.op_count) else (do
        ops ← decode_operations read.0.op_count read.1
        ok (record { header = read.0; operation_seals = ops.0 }, ops.1)))

    -- The count of operations that a decoded consignment promises.
    length-decode_operations :
        (n : ℕ) (stream stream' : W.Stream) (ops : List (OperationSeals W))
        → decode_operations n stream ≡ ok (ops, stream')
        → length ops ≡ n
    unfolding decode_operations
    length-decode_operations zero stream stream' ops e = ground (arith, e)
    length-decode_operations (suc n) stream stream' ops e =
        elim (Result-cases (decode_operation stream)) [
          | inl (x, bad) ↦ absurd (ground (arith, bad, e))
          | inr (read, good) ↦ elim (Result-cases (decode_operations n read.1)) [
            | inl (x, bad) ↦ absurd (ground (arith, good, bad, e))
            | inr (rest, fine) ↦
                ground (arith, good, fine, e, length-decode_operations n read.1 rest.1 rest.0 fine)
          ]
        ]

    -- A consignment that is decoded holds as many operations as its header says, which are at most
    -- 2^16 - 1; a header that says more makes it an error, whatever follows.
    strict_decode_lem :
        (stream : W.Stream) (header : ConsignmentHeader) (stream1 : W.Stream)
        → decode_header stream ≡ ok (header, stream1)
        → (max_consignment_ops < header.op_count
            → strict_decode stream ≡ err (W.too_many_ops header.op_count))
          × ((c : Consignment) (stream' : W.Stream)
              → strict_decode stream ≡ ok (c, stream')
              → (c.header ≡ header)
                × (length c.operation_seals ≡ header.op_count)
                × (header.op_count ≤ max_consignment_ops))
    unfolding strict_decode
    strict_decode_lem stream header stream1 e = (
      λ many. ground (arith, e, many),
      λ c stream' eq. elim (Result-cases (decode_operations header.op_count stream1)) [
        | inl (x, bad) ↦ absurd (ground (arith, e, eq, bad))
        | inr (ops, fine) ↦
            ground (
              arith,
              e,
              eq,
              fine,
              length-decode_operations header.op_count stream1 ops.1 ops.0 fine,
            )
      ],
    )

  -- The operation of the genesis, if it was not taken yet, and the operations that are left.
  pub record InMemOps : Type 0 where
    pub genesis : Option (OperationSeals W)
    pub operations : List (OperationSeals W)

  pub into_operations : Consignment → InMemOps
  into_operations c = record {
    genesis = some (record {
      operation = W.genesis_operation c.header.issue;
      defined_seals = c.header.genesis_seals;
      witness = none;
    });
    operations = c.operation_seals;
  }

  -- `self.1.next()`.
  abbrev pub next_operation : List (OperationSeals W) → Option (OperationSeals W) × InMemOps
  next_operation [] = (none, record { genesis = none; operations = [] })
  next_operation (op ∷ ops) = (some op, record { genesis = none; operations = ops })

  -- `self.0.take().or_else(|| self.1.next())`, which does not fail.
  pub take_operation : InMemOps → Result W.DecodeError (Option (OperationSeals W) × InMemOps)
  take_operation r = elim r.genesis [
    | some genesis ↦ ok (some genesis, record { genesis = none; operations = r.operations })
    | none ↦ ok (next_operation r.operations)
  ]

  -- What so many reads give.
  abbrev pub taken :
      (InMemOps → Result W.DecodeError (List (OperationSeals W)))
      → Result W.DecodeError (Option (OperationSeals W) × InMemOps)
      → Result W.DecodeError (List (OperationSeals W))
  taken next (err e) = err e
  taken next (ok (none, r)) = ok []
  taken next (ok (some op, r)) = next r >>= λ ops. ok (op ∷ ops)

  take_all : ℕ → InMemOps → Result W.DecodeError (List (OperationSeals W))
  take_all zero r = ok []
  take_all (suc n) r = taken (take_all n) (take_operation r)

  take_all_rest :
      (ops : List (OperationSeals W)) (n : ℕ)
      → length ops ≤ n
      → take_all n (record { genesis = none; operations = ops }) ≡ ok ops
  unfolding take_all take_operation
  take_all_rest [] zero h = refl
  take_all_rest [] (suc n) h = refl
  take_all_rest (op ∷ ops) zero h = absurd (omega arith)
  take_all_rest (op ∷ ops) (suc n) h = rw (take_all_rest ops n (omega arith))

  -- Read to the end, a consignment in memory yields its genesis with the genesis seals and no
  -- witness, and then its operations in their order.
  take_all-into_operations :
      (c : Consignment) (n : ℕ)
      → length c.operation_seals < n
      → take_all n (into_operations c)
        ≡ ok (
            record {
              operation = W.genesis_operation c.header.issue;
              defined_seals = c.header.genesis_seals;
              witness = none;
            }
            ∷ c.operation_seals)
  unfolding take_all take_operation into_operations
  take_all-into_operations c zero h = absurd (omega arith)
  take_all-into_operations c (suc n) h = rw (take_all_rest c.operation_seals n (omega arith))

  unfoldable pub parse_consignment : W.Stream → Result W.DecodeError (ℕ × W.Stream)
  parse_consignment stream = do
    read ←
        map_err (λ e. if W.is_integrity e then W.future_version else e)
          (W.reserved consign_version stream)
    W.contract_id read.1
