-- ===== src/Tests/Exports.antt =====
-- The theorem on streams that are written at a concrete input.
use mathlib.Core.Path.{subst}
use rgb_std.Base.{
  ℕ, zero, suc, ◌≡◌, refl, ap, ◌∙◌, true, false, Bool, Option, none, some, List, [], ◌∷◌, ◌++◌,
  arith, length, put, ◌>>=◌, >>=-eq-some, if◌then◌else◌, contains, inl, inr, Result, ok, err,
}
use rgb_std.Base.Results.{Result-cases}
use rgb_std.Status.{is_better, quasi_height, is_valid}
use rgb_std.Seals.{SealWitness, cell_addr_eq}
use rgb_std.Wire.{Wire}
use rgb_std.Contract.Status.{retrieve, better_pair}
use rgb_std.Contract.Export.{Writing, aux, consign}
use rgb_std.Contract.Export.ReadBack.{WritingLaws}
use rgb_std.Contract.Export.Stream.{
  Encoding, Written, none_written, one_written, Exported, ExportLaws,
}
use rgb_std.Contract.Export.Streamed.{AllExtend, StreamRead, read_all-consign}
use rgb_std.Tests.Samples.{numbers, pile, ledger, contract, wire}

-- A map is its length and its entries, a witness two numbers after a flag.
abbrev entries : List (ℕ × ℕ) → List ℕ
entries [] = []
entries ((k, v) ∷ m) = k ∷ v ∷ entries m

abbrev with_entry : ℕ × ℕ → Result ℕ (List (ℕ × ℕ) × List ℕ) → Result ℕ (List (ℕ × ℕ) × List ℕ)
with_entry e (err bad) = err bad
with_entry e (ok (m, rest)) = ok (e ∷ m, rest)

abbrev read_entries : ℕ → List ℕ → Result ℕ (List (ℕ × ℕ) × List ℕ)
read_entries zero rest = ok ([], rest)
read_entries (suc n) (k ∷ v ∷ rest) = with_entry (k, v) (read_entries n rest)
read_entries (suc n) _ = err 0

abbrev read_map : List ℕ → Result ℕ (List (ℕ × ℕ) × List ℕ)
read_map [] = err 0
read_map (n ∷ rest) = read_entries n rest

abbrev read_witness : List ℕ → Result ℕ (Option (SealWitness numbers) × List ℕ)
read_witness (zero ∷ rest) = ok (none, rest)
read_witness (suc n ∷ p ∷ c ∷ rest) = ok (some (record { published = p; client = c }), rest)
read_witness _ = err 0

abbrev full_wire : Wire numbers
full_wire = record wire { seals = read_map; witness = read_witness }

abbrev flag : Bool → List ℕ
flag true = 1 ∷ []
flag false = 0 ∷ []

abbrev Callback : Type 0
Callback = ℕ → ℕ → List ℕ → Option (Result ℕ (List ℕ))

-- Each operation is its number, and what `f` writes follows it.
abbrev write_ops : Callback → List (ℕ × ℕ) → List ℕ → Option (Result ℕ (List ℕ))
write_ops f [] w = some (ok w)
write_ops f ((opid, op) ∷ ops) w =
    f opid op (w ++ op ∷ []) >>= λ r. elim r [ err e ↦ some (err e) | ok w' ↦ write_ops f ops w' ]

-- After the genesis 10.
abbrev history : List (ℕ × ℕ)
history = (1, 11) ∷ (2, 12) ∷ []

abbrev selection : List ℕ → List (ℕ × ℕ) → List (ℕ × ℕ)
selection ids [] = []
selection ids ((opid, op) ∷ ops) =
    if contains ids opid then (opid, op) ∷ selection ids ops else selection ids ops

-- The head of a stream is 3.
abbrev write_stream : List (ℕ × ℕ) → List ℕ → Callback → Option (Result ℕ (List ℕ))
write_stream ops w f = write_ops f ((0, 10) ∷ []) (w ++ 3 ∷ []) >>= λ r. elim r [
  | err e ↦ some (err e)
  | ok w2 ↦ write_ops f ops (w2 ++ length ops ∷ [])
]

-- Each operation has two outputs.
abbrev writing : Writing ledger full_wire
writing = record {
  Writer = List ℕ;
  IoError = ℕ;
  write = λ w bytes. ok (w ++ bytes);
  encode_seals = λ m. length m ∷ entries m;
  encode_bool = flag;
  encode_witness = λ w. w.published ∷ w.client ∷ [];
  outputs = λ o. 2;
  operations = λ log. history;
  export_all_aux = λ log w f. write_stream history w f;
  export_aux = λ log ids w f. write_stream (selection ids history) w f;
}

read_entries-entries :
    (m : List (ℕ × ℕ)) (rest : List ℕ) → read_entries (length m) (entries m ++ rest) ≡ ok (m, rest)
read_entries-entries [] rest = refl
read_entries-entries ((k, v) ∷ m) rest = ap (with_entry (k, v)) (read_entries-entries m rest)

append_assoc : (a b c : List ℕ) → (a ++ b) ++ c ≡ a ++ (b ++ c)
append_assoc [] b c = refl
append_assoc (x ∷ a) b c = ap (λ l. x ∷ l) (append_assoc a b c)

abbrev writing_laws : WritingLaws writing
writing_laws = record {
  append = ◌++◌;
  append_assoc = append_assoc;
  written = λ w. w;
  write_appends = λ w w' bytes e. ground (arith, e);
  seals = read_entries-entries;
  no_witness = λ rest. refl;
  a_witness = λ w rest. refl;
}

append_nil : (a : List ℕ) → a ++ [] ≡ a
append_nil [] = refl
append_nil (x ∷ a) = ap (λ l. x ∷ l) (append_nil a)

abbrev encoding : Encoding writing writing_laws
encoding = record {
  empty = [];
  empty_append = λ s. refl;
  append_empty = append_nil;
  encode = λ op. op ∷ [];
  decoded = λ op. op;
  decodes = λ op rest. refl;
  encode_count = λ n. n ∷ [];
  decodes_count = λ n rest few. refl;
}

write_ops-Written :
    (f : Callback) (ops : List (ℕ × ℕ)) (w w' : List ℕ)
    → write_ops f ops w ≡ some (ok w')
    → Written writing writing_laws encoding f ops w w'
write_ops-Written f [] w w' e =
    let same : w ≡ w' = ground (arith, e) in
    subst (λ v. Written writing writing_laws encoding f [] w v) same (none_written w)
write_ops-Written f ((opid, op) ∷ ops) w w' e =
    let (r, called, k) = >>=-eq-some (f opid op (w ++ op ∷ [])) _ e in
    elim (Result-cases r) [
      | inl (bad, is) ↦ absurd (ground (arith, k, is))
      | inr (w2, is) ↦
          one_written opid op ops w (w ++ op ∷ []) w2 w' refl (called ∙ ap some is)
            (write_ops-Written f ops w2 w' (ground (arith, k, is)))
    ]

write_stream-Exported :
    (f : Callback) (ops : List (ℕ × ℕ)) (w w' : List ℕ)
    → write_stream ops w f ≡ some (ok w')
    → Exported writing writing_laws encoding f (3 ∷ []) (0, 10) ops w w'
write_stream-Exported f ops w w' e =
    let (r, called, k) = >>=-eq-some (write_ops f ((0, 10) ∷ []) (w ++ 3 ∷ [])) _ e in
    elim (Result-cases r) [
      | inl (bad, is) ↦ absurd (ground (arith, k, is))
      | inr (w2, is) ↦ record {
        w1 = w ++ 3 ∷ [];
        w2 = w2;
        w3 = w2 ++ length ops ∷ [];
        headed = refl;
        genesis_written = write_ops-Written f ((0, 10) ∷ []) (w ++ 3 ∷ []) w2 (called ∙ ap some is);
        counted = refl;
        ops_written = write_ops-Written f ops (w2 ++ length ops ∷ []) w' (ground (arith, k, is));
      }
    ]

abbrev export_laws : ExportLaws writing writing_laws encoding
export_laws = record {
  head = λ log. 3 ∷ [];
  genesis = λ log. (0, 10);
  selected = λ log ids. selection ids history;
  exports_all = λ log w w' f e. write_stream-Exported f history w w' e;
  exports = λ log ids w w' f e. write_stream-Exported f (selection ids history) w w' e;
}

abbrev stream : List ℕ
stream = 77 ∷ 3 ∷ 10 ∷ 0 ∷ 0 ∷ 1 ∷ 11 ∷ 2 ∷ 0 ∷ 8 ∷ 1 ∷ 9 ∷ 1 ∷ 4 ∷ 40 ∷ []

-- The operation 1 is selected, with its two seals and its mined witness; the genesis has neither.
wrote : consign pile ledger writing contract (1 ∷ []) (77 ∷ []) ≡ some (ok stream)
unfolding consign aux retrieve better_pair is_better quasi_height is_valid put cell_addr_eq
    rgb_std.PileFs.seals rgb_std.PileFs.op_witness_ids rgb_std.PileFs.witness_status
    rgb_std.PileFs.cli_witness rgb_std.PileFs.pub_witness
wrote = refl

abbrev one_more : ℕ → List (ℕ × ℕ)
one_more op = (2, 5) ∷ []

extended :
    AllExtend pile ledger writing writing_laws encoding export_laws one_more contract
      ((0, 10) ∷ (1, 11) ∷ [])
unfolding rgb_std.PileFs.seals cell_addr_eq put
extended = ((_, refl), ((_, refl), tt))

read_all-consign_example :
    StreamRead pile ledger writing writing_laws encoding export_laws one_more contract 3
      (3 ∷ [])
      (0, 10)
      ((1, 11) ∷ [])
      (77 ∷ [])
      stream
read_all-consign_example =
    read_all-consign pile ledger writing writing_laws encoding export_laws one_more contract 3
      (1 ∷ []) (77 ∷ []) stream wrote extended (omega arith) (omega arith)
