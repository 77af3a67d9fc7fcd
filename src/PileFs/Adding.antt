-- ===== src/PileFs/Adding.antt =====
-- `add_witness` of persistence/fs/src/pile.rs, over files that never change an entry.
use rgb_std.Base.{
  ℕ, ◌≡◌, refl, ◌⊎◌, inl, inr, false, none, some, arith, ◌==◌, ==_iff, if◌then◌else◌, or_else,
  Option-cases, nat_eq,
}
use rgb_std.Status.{WitnessStatus}
use rgb_std.Seals.{RgbSeal, cell_addr_eq}
use rgb_std.Pile.{Added}
use rgb_std.PileFs.{
  Files, PileFs, pile_fs, has_witness, pub_witness, cli_witness, witness_status, op_witness_ids,
  ops_by_witness_id, seal, add_witness,
}
use rgb_std.PileFs.Valid.{FilesLaws, IsValid}

module _ {S : RgbSeal} {F : Files S} (laws : FilesLaws F) where
  -- Where `insert` meets either no entry or the same one, it leaves this entry.
  hoard_add :
      (p : PileFs F) (w : ℕ) (anchor : S.Client)
      → (F.hoard.get p.hoard w ≡ none) ⊎ (F.hoard.get p.hoard w ≡ some anchor)
      → (g : F.hoard.File) × (F.hoard.insert p.hoard w anchor ≡ some g)
        × ((j : ℕ) → F.hoard.get g j ≡ (if w == j then some anchor else F.hoard.get p.hoard j))
  hoard_add p w anchor (inl e) =
      let (g, eq) = laws.hoard.insert_new p.hoard w anchor e in
      (g, eq, λ j. ground (arith, laws.hoard.get-insert p.hoard g w j anchor eq))
  hoard_add p w anchor (inr e) =
      let (g, eq) = laws.hoard.insert_same p.hoard w anchor e in
      (g, eq, λ j. ground (arith, laws.hoard.get-insert p.hoard g w j anchor eq))

  cache_add :
      (p : PileFs F) (w : ℕ) (published : S.Published)
      → (F.cache.get p.cache w ≡ none) ⊎ (F.cache.get p.cache w ≡ some published)
      → (g : F.cache.File) × (F.cache.insert p.cache w published ≡ some g)
        × ((j : ℕ) → F.cache.get g j ≡ (if w == j then some published else F.cache.get p.cache j))
  cache_add p w published (inl e) =
      let (g, eq) = laws.cache.insert_new p.cache w published e in
      (g, eq, λ j. ground (arith, laws.cache.get-insert p.cache g w j published eq))
  cache_add p w published (inr e) =
      let (g, eq) = laws.cache.insert_same p.cache w published e in
      (g, eq, λ j. ground (arith, laws.cache.get-insert p.cache g w j published eq))

  -- The status is written for a new witness only.
  mine_add :
      (p : PileFs F) (w : ℕ) (st : WitnessStatus)
      → (g : F.mine.File) × ((if F.mine.contains_key p.mine w
            then some p.mine
            else F.mine.insert_only p.mine w st)
          ≡ some g)
        × ((j : ℕ)
            → F.mine.get g j
              ≡ (if w == j then or_else (F.mine.get p.mine w) (some st) else F.mine.get p.mine j))
  mine_add p w st = elim (Option-cases (F.mine.get p.mine w)) [
    | inl fresh ↦
        let (g, e, look) = laws.mine.get-insert_only p.mine w st fresh in
        (g, ground (arith, laws.mine.contains_key-get p.mine w), λ j. ground (arith, look j))
    | inr (old, known) ↦ (
      p.mine,
      ground (arith, laws.mine.contains_key-get p.mine w),
      λ j. ground (arith, ==_iff w j),
    )
  ]

  -- A witness is new to a valid pile in every file at once.
  new_everywhere :
      (p : PileFs F) (w : ℕ)
      → IsValid p
      → has_witness F p w ≡ false
      → (F.hoard.get p.hoard w ≡ none) × (F.cache.get p.cache w ≡ none)
  unfolding has_witness
  new_everywhere p w v h = ground (arith, laws.hoard.contains_key-get p.hoard w, v.same_cache w)

  -- Adding a witness that is new, or known with the same anchor and transaction, succeeds and keeps
  -- the pile valid: it links the operation to the witness, records both halves, gives a new witness
  -- the status, leaves a known one its own, and changes nothing else.
  pub add_witness_lem :
      (p : PileFs F) (o w : ℕ) (published : S.Published) (anchor : S.Client) (st : WitnessStatus)
      → IsValid p
      → (has_witness F p w ≡ false)
        ⊎ ((cli_witness F p w ≡ some anchor) × (pub_witness F p w ≡ some published))
      → (q : PileFs F) × (add_witness F p o w published anchor st ≡ some q)
        × IsValid q
        × Added (pile_fs F) p q o w published anchor st
  unfolding has_witness cli_witness pub_witness add_witness witness_status op_witness_ids seal
      ops_by_witness_id
  add_witness_lem p o w published anchor st v h =
      let new_hoard : (F.hoard.get p.hoard w ≡ none) ⊎ (F.hoard.get p.hoard w ≡ some anchor) =
        elim h [ inl n ↦ inl (new_everywhere p w v n).0 | inr e ↦ inr e.0 ] in
      let new_cache : (F.cache.get p.cache w ≡ none) ⊎ (F.cache.get p.cache w ≡ some published) =
        elim h [ inl n ↦ inl (new_everywhere p w v n).1 | inr e ↦ inr e.1 ] in
      let (hoard, e1, look1) = hoard_add p w anchor new_hoard in
      let (cache, e2, look2) = cache_add p w published new_cache in
      let (mine, e3, look3) = mine_add p w st in
      let index = F.index.push p.index o w in
      let stand = F.stand.push p.stand w o in
      let push = λ (o' j : ℕ). laws.index.get-push p.index o w o' j in
      (
        record {
          hoard = hoard;
          cache = cache;
          keep = p.keep;
          index = index;
          stand = stand;
          mine = mine;
        },
        rw (e1, e2, e3),
        record {
          same_mine = λ j. ground (arith, look1 j, look3 j, v.same_mine j, ==_iff w j);
          same_cache = λ j. ground (arith, look1 j, look2 j, v.same_cache j);
          same_keys =
              λ j. ground (arith, look1 j, laws.stand.keys-push p.stand w o j, v.same_keys j);
          index_known = λ o' j c. ground (arith, look1 j, push o' j, v.index_known o' j);
          mirrored = λ o' j.
              ground (arith, push o' j, laws.stand.get-push p.stand w o j o', v.mirrored o' j);
        },
        record {
          added_witness = λ j. ground (
            arith,
            look1 j,
            laws.hoard.contains_key-get hoard j,
            laws.hoard.contains_key-get p.hoard j,
          );
          added_index = push;
          added_status = look3;
          added_anchor = look1;
          added_published = look2;
          added_seal = λ a. refl;
        },
      )
