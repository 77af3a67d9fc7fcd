-- ===== src/PileFs/Seals.antt =====
-- The seal definitions of persistence/fs/src/pile.rs: `add_seals` and `seals`.
use rgb_std.Base.{
  ℕ, zero, suc, ◌+◌, ◌≡◌, refl, true, false, ◌&&◌, Option, none, some, List, [], ◌∷◌, arith, ◌==◌,
  ltb, leb, ==_iff, if◌then◌else◌, or_else, contains, keys, lookup, lookup-put, IsDistinct,
  contains-keys,
}
use rgb_std.Seals.{RgbSeal, cell_addr_eq}
use rgb_std.PileFs.{
  Files, PileFs, cell_addr, seal, seals, seals_from, add_seals, insert_seals, put_seal,
}
use rgb_std.PileFs.Valid.{FilesLaws}

lookup-put_seal {ℓ} :
    {D : Type ℓ} (num j : ℕ) (def : Option D) (defs : List (ℕ × D))
    → lookup j (put_seal num def defs)
      ≡ (if num == j then or_else def (lookup j defs) else lookup j defs)
lookup-put_seal num j none defs = ground arith
lookup-put_seal num j (some def) defs = ground (arith, lookup-put num j def defs)

module _ {S : RgbSeal} {F : Files S} where
  lookup-seals_from :
      (p : PileFs F) (opid num left j : ℕ) (defs : List (ℕ × S.Definition))
      → lookup j (seals_from F p opid num left defs) ≡ (
          if leb num j && ltb j (num + left)
          then or_else (F.keep.get p.keep (cell_addr opid j)) (lookup j defs)
          else lookup j defs)
  unfolding seals_from
  lookup-seals_from p opid num zero j defs = ground arith
  lookup-seals_from p opid num (suc left) j defs =
      let def = F.keep.get p.keep (cell_addr opid num) in
      ground (
        arith,
        lookup-seals_from p opid (num + 1) left j (put_seal num def defs),
        lookup-put_seal num j def defs,
        ==_iff num j,
      )

  -- `seals` gives under each number below `up_to` what `seal` gives for that output of the
  -- operation, and nothing from `up_to` on.
  lookup-seals :
      (p : PileFs F) (opid up_to j : ℕ)
      → lookup j (seals F p opid up_to)
        ≡ (if ltb j up_to then seal F p (cell_addr opid j) else none)
  unfolding seals seal
  lookup-seals p opid up_to j = ground (arith, lookup-seals_from p opid 0 up_to j [])

module _ {S : RgbSeal} {F : Files S} (laws : FilesLaws F) where
  insert_one :
      (keep : F.keep.File) (opid num : ℕ) (def : S.Definition)
      → F.keep.get keep (cell_addr opid num) ≡ none
      → (keep1 : F.keep.File) × (F.keep.insert keep (cell_addr opid num) def ≡ some keep1)
        × ((o j : ℕ)
            → F.keep.get keep1 (cell_addr o j)
              ≡ (if opid == o && num == j then some def else F.keep.get keep (cell_addr o j)))
  unfolding cell_addr_eq
  insert_one keep opid num def fresh =
      let (keep1, e) = laws.keep.insert_new keep (cell_addr opid num) def fresh in
      (
        keep1,
        e,
        λ o j.
            ground
              (arith, laws.keep.get-insert keep keep1 (cell_addr opid num) (cell_addr o j) def e),
      )

  -- Inserting definitions at outputs that have none succeeds, and the entries of other operations
  -- and outputs stay.
  insert_seals_lem :
      (keep : F.keep.File) (opid : ℕ) (defs : List (ℕ × S.Definition))
      → IsDistinct defs
      → ((j : ℕ) → contains (keys defs) j ≡ true → F.keep.get keep (cell_addr opid j) ≡ none)
      → (keep' : F.keep.File) × (insert_seals F keep opid defs ≡ some keep')
        × ((o j : ℕ)
            → F.keep.get keep' (cell_addr o j) ≡ (
                if opid == o
                then or_else (lookup j defs) (F.keep.get keep (cell_addr o j))
                else F.keep.get keep (cell_addr o j)))
  unfolding insert_seals
  insert_seals_lem keep opid [] d fresh = (keep, refl, λ o j. ground arith)
  insert_seals_lem keep opid ((num, def) ∷ defs) d fresh =
      let (keep1, e, look) = insert_one keep opid num def (fresh num (ground arith)) in
      let fresh1 : (j : ℕ)
          → contains (keys defs) j ≡ true
          → F.keep.get keep1 (cell_addr opid j) ≡ none =
        λ j c. ground (arith, look opid j, fresh j, d.0, ==_iff num j) in
      let (keep2, e', look') = insert_seals_lem keep1 opid defs d.1 fresh1 in
      (
        keep2,
        rw (e, e'),
        λ o j.
            ground
              (arith, look o j, look' o j, contains-keys j defs, d.0, ==_iff num j, ==_iff opid o),
      )

  -- Adding seals, each output once, to an operation whose outputs have none succeeds; then `seals`
  -- reads back exactly the added seals whose number is below `up_to`, and the seals of every other
  -- operation are as they were.
  pub seals-add_seals :
      (p : PileFs F) (opid : ℕ) (defs : List (ℕ × S.Definition))
      → IsDistinct defs
      → ((j : ℕ) → seal F p (cell_addr opid j) ≡ none)
      → (q : PileFs F) × (add_seals F p opid defs ≡ some q)
        × ((up_to j : ℕ)
            → lookup j (seals F q opid up_to) ≡ (if ltb j up_to then lookup j defs else none))
        × ((o up_to j : ℕ)
            → (opid == o) ≡ false
            → lookup j (seals F q o up_to) ≡ lookup j (seals F p o up_to))
  unfolding add_seals seal
  seals-add_seals p opid defs d fresh =
      let (keep, e, look) = insert_seals_lem p.keep opid defs d (λ j _. fresh j) in
      let q : PileFs F = record p { keep = keep } in
      (
        q,
        rw e,
        λ up_to j. ground (arith, lookup-seals q opid up_to j, look opid j, fresh j),
        λ o up_to j other.
            ground (arith, lookup-seals q o up_to j, lookup-seals p o up_to j, look o j),
      )
