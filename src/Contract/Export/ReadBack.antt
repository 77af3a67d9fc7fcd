-- ===== src/Contract/Export/ReadBack.antt =====
-- `OpReader` of src/contract.rs reads what `Contract::aux` has written.
use rgb_std.Base.{
  ℕ, ◌≡◌, refl, sym, ap, ◌∙◌, inl, inr, true, false, Option, none, some, List, ◌>>=◌, >>=-eq-some,
  arith, is_some, ok,
}
use rgb_std.Base.Results.{◌>>=◌ as bind, >>=-eq-ok as bind-eq-ok, Result-cases}
use rgb_std.Seals.{RgbSeal, SealWitness}
use rgb_std.Pile.{Pile}
use rgb_std.Ledger.{Ledger}
use rgb_std.Wire.{Wire}
use rgb_std.Contract.{Contract}
use rgb_std.Contract.Status.{retrieve}
use rgb_std.Contract.Reader.{read_item}
use rgb_std.Contract.Export.{Writing, write_witness, aux}

-- What is written is appended, and what is encoded is decoded from the front of a stream; an optional
-- witness is encoded as a flag and, where it is there, the witness.
pub record WritingLaws {S : RgbSeal} {L : Ledger} {W : Wire S} (X : Writing L W) : Type 0 where
  pub append : W.Stream → W.Stream → W.Stream
  pub append_assoc : (a b c : W.Stream) → append (append a b) c ≡ append a (append b c)
  pub written : X.Writer → W.Stream
  pub write_appends :
      (writer writer' : X.Writer) (bytes : W.Stream)
      → X.write writer bytes ≡ ok writer'
      → written writer' ≡ append (written writer) bytes
  pub seals :
      (seals : List (ℕ × S.Definition)) (rest : W.Stream)
      → W.seals (append (X.encode_seals seals) rest) ≡ ok (seals, rest)
  pub no_witness :
      (rest : W.Stream) → W.witness (append (X.encode_bool false) rest) ≡ ok (none, rest)
  pub a_witness :
      (witness : SealWitness S) (rest : W.Stream)
      → W.witness (append (X.encode_bool true) (append (X.encode_witness witness) rest))
        ≡ ok (some witness, rest)

module _ {S : RgbSeal} (P : Pile S) (L : Ledger) {W : Wire S} (X : Writing L W)
    (laws : WritingLaws X) where
  open laws use {append, written}

  -- The bytes of a witness, with its flag.
  abbrev IsEncoding : X.Writer → X.Writer → Option (SealWitness S) → Type 0
  IsEncoding w w' witness =
      (bytes : W.Stream) × (written w' ≡ append (written w) bytes)
      × ((rest : W.Stream) → W.witness (append bytes rest) ≡ ok (witness, rest))

  write_witness-IsEncoding :
      (w w' : X.Writer) (witness : Option (SealWitness S))
      → bind (X.write w (X.encode_bool (is_some witness))) (write_witness P L X witness) ≡ ok w'
      → IsEncoding w w' witness
  write_witness-IsEncoding w w' none e =
      let (w1, e1, e2) = bind-eq-ok _ _ e in
      let same : w1 ≡ w' = ground (arith, e2) in
      (
        X.encode_bool false,
        ap written (sym same) ∙ laws.write_appends w w1 (X.encode_bool false) e1,
        laws.no_witness,
      )
  write_witness-IsEncoding w w' (some witness) e =
      let (w1, e1, e2) = bind-eq-ok _ _ e in
      let flag = X.encode_bool true in
      let bytes = X.encode_witness witness in
      (
        append flag bytes,
        laws.write_appends w1 w' bytes e2
            ∙ ap (λ s. append s bytes) (laws.write_appends w w1 flag e1)
            ∙ laws.append_assoc (written w) flag bytes,
        λ rest. ap W.witness (laws.append_assoc flag bytes rest) ∙ laws.a_witness witness rest,
      )

  -- Where `aux` writes for an operation, it appends bytes from which, after an encoding of the
  -- operation, the reader of consignments reads the operation, the seals that the pile has for its
  -- outputs, extended by those that the wallet resolves, and the witness that `retrieve` returns,
  -- and leaves what follows.
  pub read_item-aux :
      (c : Contract P L) (opid : ℕ) (op : L.Operation) (w w' : X.Writer)
      (seal_resolver : W.Operation → List (ℕ × S.Definition)) (operation : W.Operation)
      (stream : W.Stream) (defined : List (ℕ × S.Definition))
      → aux P L X c opid op w ≡ some (ok w')
      → ((rest : W.Stream) → W.operation (append stream rest) ≡ ok (operation, rest))
      → W.extend (P.seals c.pile opid (X.outputs op)) (seal_resolver operation) ≡ some defined
      → (witness : Option (SealWitness S)) × (bytes : W.Stream) × (retrieve P c.pile opid
          ≡ some witness)
        × (written w' ≡ append (written w) bytes)
        × ((rest : W.Stream)
            → read_item W seal_resolver (append stream (append bytes rest))
              ≡ ok (
                record { operation = operation; defined_seals = defined; witness = witness },
                rest,
              ))
  unfolding aux read_item
  read_item-aux c opid op w w' seal_resolver operation stream defined e decoded extended =
      elim (Result-cases (X.write w (X.encode_seals (P.seals c.pile opid (X.outputs op))))) [
        | inl (bad, is) ↦ absurd (ground (arith, e, is))
        | inr (w1, is) ↦
            let seals = X.encode_seals (P.seals c.pile opid (X.outputs op)) in
            let e1 : (retrieve P c.pile opid >>= λ witness.
            some
              (bind (X.write w1 (X.encode_bool (is_some witness))) (write_witness P L X witness)))
                ≡ some (ok w') =
              ground (arith, e, is) in
            let (witness, found, e2) = >>=-eq-some (retrieve P c.pile opid) _ e1 in
            let (b, appended, reads) =
              write_witness-IsEncoding w1 w' witness (ground (arith, e2)) in
            (
              witness,
              append seals b,
              found,
              appended
                  ∙ ap (λ s. append s b) (laws.write_appends w w1 seals is)
                  ∙ laws.append_assoc (written w) seals b,
              λ rest.
                  let all = append (append seals b) rest in
                  let front : W.seals all ≡ ok (P.seals c.pile opid (X.outputs op), append b rest) =
                    ap W.seals (laws.append_assoc seals b rest)
                    ∙ laws.seals (P.seals c.pile opid (X.outputs op)) (append b rest) in
                  rw (decoded all, front, extended, reads rest) refl,
            )
      ]
