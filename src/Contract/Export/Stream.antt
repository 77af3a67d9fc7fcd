-- ===== src/Contract/Export/Stream.antt =====
-- What hypersonic writes where `Contract::export` and `Contract::consign` of src/contract.rs call it.
use rgb_std.Base.{ℕ, ◌^◌, ◌<◌, ◌≡◌, Option, some, List, [], ◌∷◌, length, Result, ok}
use rgb_std.Seals.{RgbSeal}
use rgb_std.Ledger.{Ledger}
use rgb_std.Wire.{Wire}
use rgb_std.Contract.Export.{Writing}
use rgb_std.Contract.Export.ReadBack.{WritingLaws}

module _ {S : RgbSeal} {L : Ledger} {W : Wire S} (X : Writing L W) (laws : WritingLaws X) where
  open laws use {append, written}

  -- How an operation and a count are encoded.
  pub record Encoding : Type 0 where
    pub empty : W.Stream
    pub empty_append : (s : W.Stream) → append empty s ≡ s
    pub append_empty : (s : W.Stream) → append s empty ≡ s
    pub encode : L.Operation → W.Stream
    pub decoded : L.Operation → W.Operation
    pub decodes :
        (op : L.Operation) (rest : W.Stream)
        → W.operation (append (encode op) rest) ≡ ok (decoded op, rest)
    pub encode_count : ℕ → W.Stream
    pub decodes_count :
        (n : ℕ) (rest : W.Stream) → n < 2 ^ 32 → W.u32 (append (encode_count n) rest) ≡ ok (n, rest)

  abbrev pub Aux : Type 0
  Aux = ℕ → L.Operation → X.Writer → Option (Result X.IoError X.Writer)

  -- Operations one after another, each followed by what the callback writes.
  pub data Written (E : Encoding) (f : Aux)
      : List (ℕ × L.Operation) → X.Writer → X.Writer → Type 0 where
    none_written : (w : X.Writer) → Written E f [] w w
    one_written :
        (opid : ℕ) (op : L.Operation) (ops : List (ℕ × L.Operation)) (w w1 w2 w3 : X.Writer)
        → X.write w (E.encode op) ≡ ok w1
        → f opid op w1 ≡ some (ok w2)
        → Written E f ops w2 w3
        → Written E f ((opid, op) ∷ ops) w w3

  -- A whole stream: what stands before the operations, the genesis, the count of the other operations,
  -- and those.
  pub record Exported (E : Encoding) (f : Aux) (head : W.Stream) (genesis : ℕ × L.Operation)
      (ops : List (ℕ × L.Operation)) (w w' : X.Writer) : Type 0 where
    pub w1 : X.Writer
    pub w2 : X.Writer
    pub w3 : X.Writer
    pub headed : X.write w head ≡ ok w1
    pub genesis_written : Written E f (genesis ∷ []) w1 w2
    pub counted : X.write w2 (E.encode_count (length ops)) ≡ ok w3
    pub ops_written : Written E f ops w3 w'

  -- The exports of hypersonic: of the whole history, and of the part of it that leads to terminals.
  pub record ExportLaws (E : Encoding) : Type 0 where
    pub head : L.Log → W.Stream
    pub genesis : L.Log → ℕ × L.Operation
    pub selected : L.Log → List ℕ → List (ℕ × L.Operation)
    pub exports_all :
        (log : L.Log) (w w' : X.Writer) (f : Aux)
        → X.export_all_aux log w f ≡ some (ok w')
        → Exported E f (head log) (genesis log) (X.operations log) w w'
    pub exports :
        (log : L.Log) (terminals : List ℕ) (w w' : X.Writer) (f : Aux)
        → X.export_aux log terminals w f ≡ some (ok w')
        → Exported E f (head log) (genesis log) (selected log terminals) w w'
