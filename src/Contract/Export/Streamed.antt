-- ===== src/Contract/Export/Streamed.antt =====
-- `Contract::export` and `Contract::consign` of src/contract.rs against `OpReader`: a whole stream.
use rgb_std.Base.{
  ℕ, ◌+◌, ◌<◌, ◌≡◌, refl, sym, ap, ◌∙◌, inl, inr, some, List, [], ◌∷◌, arith, length, All, ok,
}
use rgb_std.Base.Results.{Result-cases}
use rgb_std.Seals.{RgbSeal}
use rgb_std.Pile.{Pile}
use rgb_std.Ledger.{Ledger}
use rgb_std.Wire.{Wire}
use rgb_std.Contract.{Contract}
use rgb_std.Contract.Status.{retrieve}
use rgb_std.Contract.Reader.{OperationSeals, u32_max, read_item}
use rgb_std.Contract.Reader.Count.{read_items, read_all, started, read_all-started}
use rgb_std.Contract.Export.{Writing, aux, export, consign}
use rgb_std.Contract.Export.ReadBack.{WritingLaws, read_item-aux}
use rgb_std.Contract.Export.Stream.{
  Encoding, Written, none_written, one_written, Exported, ExportLaws,
}

module _ {S : RgbSeal} (P : Pile S) (L : Ledger) {W : Wire S} (X : Writing L W)
    (laws : WritingLaws X) (E : Encoding X laws) (exports : ExportLaws X laws E)
    (seal_resolver : W.Operation → List (ℕ × S.Definition)) (c : Contract P L) where
  open laws use {append, written}

  -- What the reader makes of the seals of an operation and of those that the wallet resolves.
  abbrev pub Extends : ℕ × L.Operation → List (ℕ × S.Definition) → Type 0
  Extends (opid, op) defined =
      W.extend (P.seals c.pile opid (X.outputs op)) (seal_resolver (E.decoded op)) ≡ some defined

  abbrev pub AllExtend : List (ℕ × L.Operation) → Type 0
  AllExtend ops = All (λ op. (defined : List (ℕ × S.Definition)) × Extends op defined) ops

  -- The operations of the contract, each with its seals and its witness, in their order.
  abbrev pub ReadBack : List (ℕ × L.Operation) → List (OperationSeals W) → Type 0
  ReadBack [] [] = Unit {0}
  ReadBack ((opid, op) ∷ ops) (r ∷ rs) =
      (r.operation ≡ E.decoded op)
      × Extends (opid, op) r.defined_seals
      × (retrieve P c.pile opid ≡ some r.witness)
      × ReadBack ops rs
  ReadBack _ _ = ⊥

  abbrev Reads : List (ℕ × L.Operation) → X.Writer → X.Writer → Type 0
  Reads ops w w' =
      (bytes : W.Stream) × (rs : List (OperationSeals W)) × (written w' ≡ append (written w) bytes)
      × ReadBack ops rs
      × ((rest : W.Stream)
          → read_items W seal_resolver (length ops) (append bytes rest) ≡ ok (rs, rest))

  -- One operation with its bytes, before others that are read.
  written_one :
      (opid : ℕ) (op : L.Operation) (ops : List (ℕ × L.Operation)) (w w1 w2 w3 : X.Writer)
      → X.write w (E.encode op) ≡ ok w1
      → aux P L X c opid op w1 ≡ some (ok w2)
      → ((defined : List (ℕ × S.Definition)) × Extends (opid, op) defined)
      → Reads ops w2 w3
      → Reads ((opid, op) ∷ ops) w w3
  unfolding read_items
  written_one opid op ops w w1 w2 w3 wrote called (defined, extends)
        (bytes, rs, more, back, reads) =
      let (witness, b, found, added, item) =
        read_item-aux P L X laws c opid op w1 w2 seal_resolver (E.decoded op) (E.encode op) defined
          called (E.decodes op) extends in
      let r : OperationSeals W = record {
        operation = E.decoded op;
        defined_seals = defined;
        witness = witness;
      } in
      let front = append (E.encode op) b in
      (
        append front bytes,
        r ∷ rs,
        more
            ∙ ap (λ s. append s bytes)
                (added
                  ∙ ap (λ s. append s b) (laws.write_appends w w1 (E.encode op) wrote)
                  ∙ laws.append_assoc (written w) (E.encode op) b)
            ∙ laws.append_assoc (written w) front bytes,
        (refl, extends, found, back),
        λ rest.
            let apart : append (append front bytes) rest
                ≡ append (E.encode op) (append b (append bytes rest)) =
              laws.append_assoc front bytes rest
              ∙ laws.append_assoc (E.encode op) b (append bytes rest) in
            rw (apart, item (append bytes rest), reads rest) refl,
      )

  Written-Reads :
      (ops : List (ℕ × L.Operation)) (w w' : X.Writer)
      → Written X laws E (aux P L X c) ops w w'
      → AllExtend ops
      → Reads ops w w'
  Written-Reads [] w w' (none_written _) h = (
    E.empty,
    [],
    sym (E.append_empty (written w)),
    tt,
    λ rest. unfold read_items in ap (λ s. ok ([], s)) (E.empty_append rest),
  )
  Written-Reads ((opid, op) ∷ ops) w w' (one_written _ _ _ _ w1 w2 _ wrote called more) (h, hs) =
      written_one opid op ops w w1 w2 w' wrote called h (Written-Reads ops w2 w' more hs)

  read_items_one :
      (stream rest : W.Stream) (r : OperationSeals W)
      → read_items W seal_resolver 1 stream ≡ ok (r ∷ [], rest)
      → read_item W seal_resolver stream ≡ ok (r, rest)
  unfolding read_items
  read_items_one stream rest r e = elim (Result-cases (read_item W seal_resolver stream)) [
    | inl (x, bad) ↦ absurd (ground (arith, bad, e))
    | inr (read, good) ↦ ground (arith, good, e)
  ]

  -- A genesis is read as one operation.
  genesis_read :
      (genesis : ℕ × L.Operation) (w w' : X.Writer)
      → Reads (genesis ∷ []) w w'
      → (bytes : W.Stream) × (r : OperationSeals W) × (written w' ≡ append (written w) bytes)
        × ReadBack (genesis ∷ []) (r ∷ [])
        × ((rest : W.Stream) → read_item W seal_resolver (append bytes rest) ≡ ok (r, rest))
  genesis_read genesis w w' (bytes, r ∷ [], added, back, reads) =
      (bytes, r, added, back, λ rest. read_items_one (append bytes rest) rest r (reads rest))
  genesis_read genesis w w' (bytes, r ∷ _ ∷ _, added, (_, _, _, never), reads) = absurd never
  genesis_read genesis w w' (bytes, [], added, never, reads) = absurd never

  -- After its head, a stream is read from the start to the end of what was written.
  abbrev pub StreamRead :
      ℕ → W.Stream → ℕ × L.Operation → List (ℕ × L.Operation) → X.Writer → X.Writer → Type 0
  StreamRead fuel head genesis ops w w' =
      (bytes : W.Stream) × (rs : List (OperationSeals W)) × (written w'
        ≡ append (written w) (append head bytes))
      × ReadBack (genesis ∷ ops) rs
      × ((rest : W.Stream)
          → read_all W seal_resolver fuel (started W seal_resolver (append bytes rest))
            ≡ ok (some (rs, record { stream = rest; count = 0 })))

  Exported-StreamRead :
      (fuel : ℕ) (head : W.Stream) (genesis : ℕ × L.Operation) (ops : List (ℕ × L.Operation))
      (w w' : X.Writer)
      → Exported X laws E (aux P L X c) head genesis ops w w'
      → AllExtend (genesis ∷ ops)
      → length ops < u32_max
      → length ops + 1 < fuel
      → StreamRead fuel head genesis ops w w'
  Exported-StreamRead fuel head genesis ops w w' x (h, hs) few enough =
      let (b, r, added, back, item) =
        genesis_read genesis x.w1 x.w2
          (Written-Reads (genesis ∷ []) x.w1 x.w2 x.genesis_written (h, tt)) in
      let (b', rs, added', backs, items) = Written-Reads ops x.w3 w' x.ops_written hs in
      let count = E.encode_count (length ops) in
      (
        append b (append count b'),
        r ∷ rs,
        added'
            ∙ ap (λ s. append s b')
                (laws.write_appends x.w2 x.w3 count x.counted
                  ∙ ap (λ s. append s count)
                      (added ∙ ap (λ s. append s b) (laws.write_appends w x.w1 head x.headed)))
            ∙ laws.append_assoc _ count b'
            ∙ laws.append_assoc _ b (append count b')
            ∙ laws.append_assoc (written w) head (append b (append count b')),
        (back.0, back.1, back.2, backs),
        λ rest.
            let apart : append (append b (append count b')) rest
                ≡ append b (append count (append b' rest)) =
              laws.append_assoc b (append count b') rest
              ∙ ap (append b) (laws.append_assoc count b' rest) in
            ap (λ s. read_all W seal_resolver fuel (started W seal_resolver s)) apart
            ∙ read_all-started W seal_resolver fuel _ _ _ r (length ops)
                (item (append count (append b' rest)))
                (E.decodes_count (length ops) (append b' rest) (omega (arith, few))) few enough
            ∙ rw (items rest) refl,
      )

  -- The export of the whole history is read back, like a consignment below.
  read_all-export :
      (fuel : ℕ) (w w' : X.Writer)
      → export P L X c w ≡ some (ok w')
      → AllExtend (exports.genesis c.ledger ∷ X.operations c.ledger)
      → length (X.operations c.ledger) < u32_max
      → length (X.operations c.ledger) + 1 < fuel
      → StreamRead fuel
          (exports.head c.ledger)
          (exports.genesis c.ledger)
          (X.operations c.ledger)
          w
          w'
  unfolding export
  read_all-export fuel w w' e =
      Exported-StreamRead fuel (exports.head c.ledger) (exports.genesis c.ledger)
        (X.operations c.ledger) w w' (exports.exports_all c.ledger w w' (aux P L X c) e)

  -- Where a contract is consigned to terminals without an error, fewer than 2^32 - 1 operations
  -- after the genesis are selected, and no operation has too many seals with those that the wallet
  -- resolves, what is written after the head is read to its end: the reader of consignments yields
  -- the genesis and the selected operations in their order, each with the seals that the pile has
  -- for its outputs, extended by the resolved ones, and with the witness that `retrieve` returns,
  -- and leaves what follows.
  pub read_all-consign :
      (fuel : ℕ) (terminals : List ℕ) (w w' : X.Writer)
      → consign P L X c terminals w ≡ some (ok w')
      → AllExtend (exports.genesis c.ledger ∷ exports.selected c.ledger terminals)
      → length (exports.selected c.ledger terminals) < u32_max
      → length (exports.selected c.ledger terminals) + 1 < fuel
      → StreamRead fuel
          (exports.head c.ledger)
          (exports.genesis c.ledger)
          (exports.selected c.ledger terminals)
          w
          w'
  unfolding consign
  read_all-consign fuel terminals w w' e =
      Exported-StreamRead fuel (exports.head c.ledger) (exports.genesis c.ledger)
        (exports.selected c.ledger terminals) w w'
        (exports.exports c.ledger terminals w w' (aux P L X c) e)
