-- ===== src/StockpileDir/Listed.antt =====
-- Which issuers and contracts `StockpileDir::load` of persistence/fs/src/stockpile.rs lists.
use rgb_std.Base.{
  ℕ, ◌≡◌, refl, sym, ap, ap₂, ◌∙◌, ◌⊎◌, inl, inr, Bool, true, Option, none, some, List, [], ◌∷◌,
  map, arith, ==_iff, ==_refl, ◌>>=◌, lookup, insert, lookup-insert, is_some, Result, ok, err,
}
use rgb_std.Base.Results.{Result-cases}
use rgb_std.Seals.{RgbSeal}
use rgb_std.Pile.{Pile}
use rgb_std.Ledger.{Ledger}
use rgb_std.Wire.{Wire}
use rgb_std.Host.{Host}
use rgb_std.Contracts.Named.{Among}
use rgb_std.StockpileDir.{
  FileType, file, dir, Extension, issuer_file, contract_dir, FileSystem, StockpileDir,
}
use rgb_std.StockpileDir.Load.{Names, read_name, read_entry, read_entries, load_dir}

-- The names that entries give to ids, later ones in place of earlier ones.
module _ {E : Type 0} (named : E → Option (ℕ × ℕ)) where
  abbrev note : Option (ℕ × ℕ) → List (ℕ × ℕ) → List (ℕ × ℕ)
  note none m = m
  note (some (id, name)) m = insert id name m

  abbrev note_all : List E → List (ℕ × ℕ) → List (ℕ × ℕ)
  note_all [] m = m
  note_all (e ∷ es) m = note_all es (note (named e) m)

  -- An entry that names the id.
  abbrev pub IsNamed : List E → ℕ → ℕ → Type 0
  IsNamed es id name = (e : E) × Among e es × (named e ≡ some (id, name))

  lookup-note :
      (o : Option (ℕ × ℕ)) (m : List (ℕ × ℕ)) (id name : ℕ)
      → lookup id (note o m) ≡ some name
      → (o ≡ some (id, name)) ⊎ (lookup id m ≡ some name)
  lookup-note none m id name h = inr h
  lookup-note (some (id', name')) m id name h =
      ground (arith, lookup-insert id' id name' m, ==_iff id' id, h)

  lookup-note_all :
      (es : List E) (m : List (ℕ × ℕ)) (id name : ℕ)
      → lookup id (note_all es m) ≡ some name
      → IsNamed es id name ⊎ (lookup id m ≡ some name)
  lookup-note_all [] m id name h = inr h
  lookup-note_all (e ∷ es) m id name h = elim (lookup-note_all es (note (named e) m) id name h) [
    | inl (e', among, is) ↦ inl (e', inr among, is)
    | inr before ↦ elim (lookup-note (named e) m id name before) [
      | inl here ↦ inl (e, inl refl, here)
      | inr old ↦ inr old
    ]
  ]

  lookup-noted :
      (es : List E) (id name : ℕ) → lookup id (note_all es []) ≡ some name → IsNamed es id name
  lookup-noted es id name h = elim (lookup-note_all es [] id name h) [
    | inl here ↦ here
    | inr before ↦ absurd (cc)
  ]

  kept-note :
      (o : Option (ℕ × ℕ)) (m : List (ℕ × ℕ)) (id : ℕ)
      → is_some (lookup id m) ≡ true
      → is_some (lookup id (note o m)) ≡ true
  kept-note none m id h = h
  kept-note (some (id', name')) m id h = ground (arith, lookup-insert id' id name' m, h)

  kept-note_all :
      (es : List E) (m : List (ℕ × ℕ)) (id : ℕ)
      → is_some (lookup id m) ≡ true
      → is_some (lookup id (note_all es m)) ≡ true
  kept-note_all [] m id h = h
  kept-note_all (e ∷ es) m id h =
      kept-note_all es (note (named e) m) id (kept-note (named e) m id h)

  named-note_all :
      (es : List E) (m : List (ℕ × ℕ)) (id name : ℕ)
      → IsNamed es id name
      → is_some (lookup id (note_all es m)) ≡ true
  named-note_all [] m id name (e, no_one, is) = absurd no_one
  named-note_all (e ∷ es) m id name (e', inr among, is) =
      named-note_all es (note (named e) m) id name (e', among, is)
  named-note_all (e ∷ es) m id name (e', inl same, is) =
      let here : named e ≡ some (id, name) = ap named (sym same) ∙ is in
      kept-note_all es (note (named e) m) id
        (rw here (ground (arith, lookup-insert id id name m, ==_refl id)))

module _ {S : RgbSeal} {P : Pile S} {L : Ledger} {W : Wire S} {H : Host P L W}
    (D : FileSystem H) where
  -- `NAME.ID.issuer`, a file, and `NAME.ID.contract`, a directory.
  abbrev issuer_of : FileType → Option Extension → Option (ℕ × D.Str) → Option (ℕ × ℕ)
  issuer_of file (some issuer_file) (some (name, id)) = D.parse_codex_id id >>= λ i. some (i, name)
  issuer_of _ _ _ = none

  abbrev contract_of : FileType → Option Extension → Option (ℕ × D.Str) → Option (ℕ × ℕ)
  contract_of dir (some contract_dir) (some (name, id)) =
      D.parse_contract_id id >>= λ i. some (i, name)
  contract_of _ _ _ = none

  abbrev by_type :
      (FileType → Option Extension → Option (ℕ × D.Str) → Option (ℕ × ℕ)) → D.Entry → Option (ℕ × ℕ)
  by_type f entry = elim (D.file_type entry) [
    | err e ↦ none
    | ok ty ↦ f ty (D.extension entry) (D.file_stem entry >>= D.split_once)
  ]

  -- The issuer, or the contract, that an entry of the directory stands for: its id and its name.
  abbrev pub issuer_entry : D.Entry → Option (ℕ × ℕ)
  issuer_entry = by_type issuer_of

  abbrev pub contract_entry : D.Entry → Option (ℕ × ℕ)
  contract_entry = by_type contract_of

  read_name_lem :
      (ty : FileType) (extension : Option Extension) (split : Option (ℕ × D.Str)) (names : Names D)
      → read_name D ty extension split names ≡ (
        note issuer_entry (issuer_of ty extension split) names.0,
        note contract_entry (contract_of ty extension split) names.1,
      )
  read_name_lem ty extension split names = ground arith

  read_entry_lem :
      (entry : D.Entry) (names names' : Names D)
      → read_entry D entry names ≡ ok names'
      → names' ≡ (
        note issuer_entry (issuer_entry entry) names.0,
        note contract_entry (contract_entry entry) names.1,
      )
  unfolding read_entry
  read_entry_lem entry names names' h = elim (Result-cases (D.file_type entry)) [
    | inl (e, bad) ↦ absurd (ground (arith, bad, h))
    | inr (ty, good) ↦
        let made =
          read_name_lem ty (D.extension entry) (D.file_stem entry >>= D.split_once) names in
        let same : read_name D ty (D.extension entry) (D.file_stem entry >>= D.split_once) names
            ≡ names' =
          ground (arith, good, h) in
        let i : issuer_of ty (D.extension entry) (D.file_stem entry >>= D.split_once)
            ≡ issuer_entry entry =
          rw (good, by_type) refl in
        let c : contract_of ty (D.extension entry) (D.file_stem entry >>= D.split_once)
            ≡ contract_entry entry =
          rw (good, by_type) refl in
        sym same
        ∙ made
        ∙ ap₂ (λ o p. (note issuer_entry o names.0, note contract_entry p names.1)) i c
  ]

  read_entries_lem :
      (entries : List (Result H.PileError D.Entry)) (names names' : Names D)
      → read_entries D entries names ≡ ok names'
      → (es : List D.Entry) × (entries ≡ map ok es)
        × (names' ≡ (note_all issuer_entry es names.0, note_all contract_entry es names.1))
  unfolding read_entries
  read_entries_lem [] names names' h = ([], refl, ground (arith, h))
  read_entries_lem (err e ∷ entries) names names' h = absurd (ground (arith, h))
  read_entries_lem (ok entry ∷ entries) names names' h =
      elim (Result-cases (read_entry D entry names)) [
        | inl (e, bad) ↦ absurd (ground (arith, bad, h))
        | inr (names1, good) ↦
            let rest : read_entries D entries names1 ≡ ok names' = ground (arith, good, h) in
            let (es, all, made) = read_entries_lem entries names1 names' rest in
            let first = read_entry_lem entry names names1 good in
            (
              entry ∷ es,
              ap (λ l. ok entry ∷ l) all,
              made
                  ∙ ap
                      (λ (n : Names D).
                        (note_all issuer_entry es n.0, note_all contract_entry es n.1))
                      first,
            )
      ]

  -- A directory that is loaded has the given consensus and network; all its entries were read, and
  -- it lists an issuer, or a contract, under an id exactly if an entry stands for it, with a name
  -- that such an entry gives.
  pub load_dir-IsNamed :
      (disk : H.Disk) (consensus : ℕ) (testnet : Bool) (d : StockpileDir D)
      → load_dir D disk consensus testnet ≡ ok d
      → (d.consensus ≡ consensus)
        × (d.testnet ≡ testnet)
        × ((es : List D.Entry) × (D.read_dir disk ≡ ok (map ok es))
            × ((id name : ℕ) → lookup id d.issuers ≡ some name → IsNamed issuer_entry es id name)
            × ((id name : ℕ)
                → IsNamed issuer_entry es id name
                → is_some (lookup id d.issuers) ≡ true)
            × ((id name : ℕ)
                → lookup id d.contracts ≡ some name
                → IsNamed contract_entry es id name)
            × ((id name : ℕ)
                → IsNamed contract_entry es id name
                → is_some (lookup id d.contracts) ≡ true))
  unfolding load_dir
  load_dir-IsNamed disk consensus testnet d h = elim (Result-cases (D.read_dir disk)) [
    | inl (e, bad) ↦ absurd (ground (arith, bad, h))
    | inr (entries, read) ↦ elim (Result-cases (read_entries D entries ([], []))) [
      | inl (e, bad) ↦ absurd (ground (arith, read, bad, h))
      | inr (names, good) ↦
          let (es, all, made) = read_entries_lem entries ([], []) names good in
          let is : d ≡ record {
            consensus = consensus;
            testnet = testnet;
            issuers = note_all issuer_entry es [];
            contracts = note_all contract_entry es [];
            disk = disk;
          } =
            ground (arith, read, good, made, h) in
          let issuers = ap (λ (k : StockpileDir D). k.issuers) is in
          let contracts = ap (λ (k : StockpileDir D). k.contracts) is in
          (
            ap (λ (k : StockpileDir D). k.consensus) is,
            ap (λ (k : StockpileDir D). k.testnet) is,
            (
              es,
              read ∙ ap ok all,
              λ id name found.
                  lookup-noted issuer_entry es id name (ap (lookup id) (sym issuers) ∙ found),
              λ id name named. rw issuers (named-note_all issuer_entry es [] id name named),
              λ id name found.
                  lookup-noted contract_entry es id name (ap (lookup id) (sym contracts) ∙ found),
              λ id name named. rw contracts (named-note_all contract_entry es [] id name named),
            ),
          )
    ]
  ]
