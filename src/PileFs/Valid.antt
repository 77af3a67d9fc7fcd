-- ===== src/PileFs/Valid.antt =====
-- The invariant of `PileFs` of persistence/fs/src/pile.rs: its six files keep in step.
use rgb_std.Base.{
  ℕ, ◌≡◌, refl, sym, ◌∙◌, true, some, arith, ◌==◌, ==_iff, if◌then◌else◌, is_some, contains, nat_eq,
}
use rgb_std.Status.{WitnessStatus}
use rgb_std.Seals.{RgbSeal, cell_addr_eq}
use rgb_std.Pile.{SameLinks}
use rgb_std.PileFs.Aora.{AoraMapLaws, AoraIndexLaws, AuraMapLaws}
use rgb_std.PileFs.{
  Files, PileFs, new, pile_fs, has_witness, cli_witness, witness_status, op_witness_ids,
  ops_by_witness_id, seal, update_witness_status, commit_transaction,
}

-- What is relied upon of the six kinds of file.
pub record FilesLaws {S : RgbSeal} (F : Files S) : Type 0 where
  pub hoard : AoraMapLaws F.hoard
  pub cache : AoraMapLaws F.cache
  pub keep : AoraMapLaws F.keep
  pub index : AoraIndexLaws F.index
  pub stand : AoraIndexLaws F.stand
  pub mine : AuraMapLaws F.mine

module _ {S : RgbSeal} {F : Files S} where
  -- The same witnesses stand in all files, and the two indexes mirror one another.
  pub record IsValid (p : PileFs F) : Type 0 where
    pub same_mine : (w : ℕ) → is_some (F.mine.get p.mine w) ≡ is_some (F.hoard.get p.hoard w)
    pub same_cache : (w : ℕ) → is_some (F.cache.get p.cache w) ≡ is_some (F.hoard.get p.hoard w)
    pub same_keys : (w : ℕ) → contains (F.stand.keys p.stand) w ≡ is_some (F.hoard.get p.hoard w)
    pub index_known :
        (o w : ℕ)
        → contains (F.index.get p.index o) w ≡ true
        → is_some (F.hoard.get p.hoard w) ≡ true
    pub mirrored :
        (o w : ℕ) → contains (F.index.get p.index o) w ≡ contains (F.stand.get p.stand w) o

module _ {S : RgbSeal} {F : Files S} (laws : FilesLaws F) where
  -- A new pile is valid.
  pub new-IsValid : IsValid (new F)
  unfolding new
  new-IsValid = record {
    same_mine = λ w. rw (laws.mine.get-create_new w, laws.hoard.get-create_new w);
    same_cache = λ w. rw (laws.cache.get-create_new w, laws.hoard.get-create_new w);
    same_keys = λ w. rw (laws.stand.keys-create_new, laws.hoard.get-create_new w);
    index_known = λ o w h. ground (arith, laws.index.get-create_new o);
    mirrored = λ o w. rw (laws.index.get-create_new o, laws.stand.get-create_new w);
  }

  -- Updating the status of a known witness of a valid pile succeeds, keeps the pile valid and
  -- changes nothing else.
  pub update_witness_status_lem :
      (p : PileFs F) (w : ℕ) (st : WitnessStatus)
      → IsValid p
      → has_witness F p w ≡ true
      → (q : PileFs F) × (update_witness_status F p w st ≡ some q)
        × IsValid q
        × SameLinks (pile_fs F) p q
        × ((j : ℕ) → witness_status F q j ≡ (if w == j then some st else witness_status F p j))
  unfolding has_witness update_witness_status op_witness_ids ops_by_witness_id seal witness_status
  update_witness_status_lem p w st v has =
      let known : is_some (F.mine.get p.mine w) ≡ true =
        v.same_mine w ∙ sym (laws.hoard.contains_key-get p.hoard w) ∙ has in
      let (mine, e, look) = laws.mine.get-update_only p.mine w st known in
      (
        record p { mine = mine },
        rw e,
        record {
          same_mine = λ j. ground (arith, look j, v.same_mine j, ==_iff w j, known);
          same_cache = v.same_cache;
          same_keys = v.same_keys;
          index_known = v.index_known;
          mirrored = v.mirrored;
        },
        record {
          same_witness = λ j. refl;
          same_index = λ o. refl;
          same_stand = λ j. refl;
          same_seal = λ a. refl;
        },
        look,
      )

  -- Committing keeps the pile valid and what it answers.
  pub commit_transaction_lem :
      (p : PileFs F)
      → IsValid p
      → IsValid (commit_transaction F p)
        × SameLinks (pile_fs F) p (commit_transaction F p)
        × ((j : ℕ) → witness_status F (commit_transaction F p) j ≡ witness_status F p j)
        × ((j : ℕ) → cli_witness F (commit_transaction F p) j ≡ cli_witness F p j)
  unfolding commit_transaction has_witness op_witness_ids ops_by_witness_id seal witness_status
      cli_witness
  commit_transaction_lem p v = (
    record {
      same_mine = λ j. rw (laws.mine.get-commit_transaction p.mine j) (v.same_mine j);
      same_cache = v.same_cache;
      same_keys = v.same_keys;
      index_known = v.index_known;
      mirrored = v.mirrored;
    },
    record {
      same_witness = λ j. refl;
      same_index = λ o. refl;
      same_stand = λ j. refl;
      same_seal = λ a. refl;
    },
    laws.mine.get-commit_transaction p.mine,
    λ j. refl,
  )
