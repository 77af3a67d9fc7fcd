-- ===== src/Contract/Reader/Count.antt =====
-- How many operations `OpReader` of src/contract.rs yields.
use rgb_std.Base.{
  ℕ, zero, suc, ◌+◌, ◌<◌, ◌≡◌, refl, inl, inr, false, Option, none, some, List, [], ◌∷◌, arith,
  ◌==◌, Result, ok, err,
}
use rgb_std.Base.Results.{◌>>=◌, Result-cases}
use rgb_std.Seals.{RgbSeal}
use rgb_std.Wire.{Wire}
use rgb_std.Contract.Reader.{
  OperationSeals, OpReader, u32_max, read_item, next_count, read_operation,
}

module _ {S : RgbSeal} (W : Wire S) (seal_resolver : W.Operation → List (ℕ × S.Definition)) where
  abbrev pub with_op :
      OperationSeals W
      → Option (List (OperationSeals W) × OpReader W)
      → Option (List (OperationSeals W) × OpReader W)
  with_op op none = none
  with_op op (some (ops, r)) = some (op ∷ ops, r)

  abbrev pub after_read :
      (OpReader W → Result W.DecodeError (Option (List (OperationSeals W) × OpReader W)))
      → Option (OperationSeals W) × OpReader W
      → Result W.DecodeError (Option (List (OperationSeals W) × OpReader W))
  after_read next (none, r) = ok (some ([], r))
  after_read next (some op, r) = next r >>= λ rest. ok (with_op op rest)

  -- A consumer that reads until it is told that there are no more operations; `none` where it is
  -- not told within that many calls.
  pub read_all :
      ℕ → OpReader W → Result W.DecodeError (Option (List (OperationSeals W) × OpReader W))
  read_all zero r = ok none
  read_all (suc fuel) r = read_operation W seal_resolver r >>= after_read (read_all fuel)

  -- So many operations, one after another.
  unfoldable pub read_items :
      ℕ → W.Stream → Result W.DecodeError (List (OperationSeals W) × W.Stream)
  read_items zero stream = ok ([], stream)
  read_items (suc n) stream = do
    read ← read_item W seal_resolver stream
    let (op, stream1) = read
    rest ← read_items n stream1
    let (ops, stream2) = rest
    ok (op ∷ ops, stream2)

  abbrev pub ended :
      List (OperationSeals W) × W.Stream → Option (List (OperationSeals W) × OpReader W)
  ended (ops, stream) = some (ops, record { stream = stream; count = 0 })

  abbrev pub started : W.Stream → OpReader W
  started stream = record { stream = stream; count = u32_max }

  step :
      (count : ℕ) (stream : W.Stream)
      → (count == 0) ≡ false
      → read_operation W seal_resolver (record { stream = stream; count = count }) ≡ (
          read_item W seal_resolver stream >>= λ read.
          next_count W seal_resolver count read.1 >>= λ read1.
          ok (some read.0, record { stream = read1.1; count = read1.0 }))
  unfolding read_operation
  step count stream h = rw h

  next_count_down :
      (n : ℕ) (stream : W.Stream)
      → suc n < u32_max
      → next_count W seal_resolver (suc n) stream ≡ ok (n, stream)
  unfolding next_count
  next_count_down n stream h = ground arith

  joined :
      (op : OperationSeals W) (r : Result W.DecodeError (List (OperationSeals W) × W.Stream))
      → (r >>= (λ read. ok (ended read)) >>= λ rest. ok (with_op op rest))
        ≡ (r >>= λ read. ok (with_op op (ended read)))
  joined op (ok read) = refl
  joined op (err e) = refl

  joined_items :
      (op : OperationSeals W) (r : Result W.DecodeError (List (OperationSeals W) × W.Stream))
      → (r >>= (λ read. ok (ended read)) >>= λ rest. ok (with_op op rest))
        ≡ (r >>= (λ rest. ok (op ∷ rest.0, rest.1)) >>= λ read. ok (ended read))
  joined_items op (ok read) = refl
  joined_items op (err e) = refl

  -- From a count below the sentinel on, exactly as many operations are read as it says.
  read_all-read_items :
      (n fuel : ℕ) (stream : W.Stream)
      → n < u32_max
      → n < fuel
      → read_all fuel (record { stream = stream; count = n })
        ≡ (read_items n stream >>= λ read. ok (ended read))
  unfolding read_all read_items
  read_all-read_items n zero stream h k = absurd (omega arith)
  read_all-read_items zero (suc fuel) stream h k = unfold read_operation in refl
  read_all-read_items (suc n) (suc fuel) stream h k =
      elim (Result-cases (read_item W seal_resolver stream)) [
        | inl (e, bad) ↦ rw (step (suc n) stream (ground arith), bad)
        | inr ((op, stream1), good) ↦
            rw
              (
                step (suc n) stream (ground arith),
                good,
                next_count_down n stream1 h,
                read_all-read_items n fuel stream1 (omega arith) (omega arith),
              )
              (joined_items op (read_items n stream1))
      ]

  -- Where the first operation and then a count below the sentinel are read, and the consumer may call
  -- at least twice more than the count says: it gets the first operation and then exactly as many
  -- operations as the count says, and an error in any of them is the result.
  pub read_all-started :
      (fuel : ℕ) (stream stream1 stream2 : W.Stream) (genesis : OperationSeals W) (n : ℕ)
      → read_item W seal_resolver stream ≡ ok (genesis, stream1)
      → W.u32 stream1 ≡ ok (n, stream2)
      → n < u32_max
      → n + 1 < fuel
      → read_all fuel (started stream)
        ≡ (read_items n stream2 >>= λ read. ok (with_op genesis (ended read)))
  unfolding read_all
  read_all-started zero stream stream1 stream2 genesis n e e' h k = absurd (omega arith)
  read_all-started (suc fuel) stream stream1 stream2 genesis n e e' h k =
      let count : next_count W seal_resolver u32_max stream1 ≡ ok (n, stream2) =
        unfold next_count in e' in
      rw (step u32_max stream refl, e, count, read_all-read_items n fuel stream2 h (omega arith))
        (joined genesis (read_items n stream2))
