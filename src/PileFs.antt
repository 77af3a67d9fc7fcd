-- ===== src/PileFs.antt =====
-- `PileFs` of persistence/fs/src/pile.rs: the pile over six files. `none` is a panic.
pub mod Aora
pub mod Valid
pub mod Adding
pub mod Refines
pub mod Seals
pub mod Reachable
use rgb_std.Base.{
  ℕ, zero, suc, ◌+◌, Bool, Option, none, some, List, [], ◌∷◌, ◌>>=◌, if◌then◌else◌, put,
}
use rgb_std.Status.{WitnessStatus}
use rgb_std.Seals.{RgbSeal, CellAddr, Witness, OpRels}
use rgb_std.Pile.{Pile}
use Aora.{AoraMap, AoraIndex, AuraMap}

-- The six kinds of file.
pub record Files (S : RgbSeal) : Type 1 where
  pub hoard : AoraMap ℕ S.Client
  pub cache : AoraMap ℕ S.Published
  pub keep : AoraMap CellAddr S.Definition
  pub index : AoraIndex
  pub stand : AoraIndex
  pub mine : AuraMap WitnessStatus

pub record PileFs {S : RgbSeal} (F : Files S) : Type 0 where
  pub hoard : F.hoard.File
  pub cache : F.cache.File
  pub keep : F.keep.File
  pub index : F.index.File
  pub stand : F.stand.File
  pub mine : F.mine.File

abbrev pub cell_addr : ℕ → ℕ → CellAddr
cell_addr opid num = record { opid = opid; pos = num }

abbrev pub put_seal {ℓ} : {D : Type ℓ} → ℕ → Option D → List (ℕ × D) → List (ℕ × D)
put_seal num none defs = defs
put_seal num (some def) defs = put num def defs

module _ {S : RgbSeal} (F : Files S) where
  -- Six files, each created; the errors of the file system are left out.
  unfoldable pub new : PileFs F
  new = record {
    hoard = F.hoard.create_new;
    cache = F.cache.create_new;
    keep = F.keep.create_new;
    index = F.index.create_new;
    stand = F.stand.create_new;
    mine = F.mine.create_new;
  }

  unfoldable pub has_witness : PileFs F → ℕ → Bool
  has_witness p wid = F.hoard.contains_key p.hoard wid

  unfoldable pub pub_witness : PileFs F → ℕ → Option S.Published
  pub_witness p wid = F.cache.get p.cache wid

  unfoldable pub cli_witness : PileFs F → ℕ → Option S.Client
  cli_witness p wid = F.hoard.get p.hoard wid

  unfoldable pub witness_status : PileFs F → ℕ → Option WitnessStatus
  witness_status p wid = F.mine.get p.mine wid

  unfoldable pub witness_ids : PileFs F → List ℕ
  witness_ids p = F.stand.keys p.stand

  unfoldable pub op_witness_ids : PileFs F → ℕ → List ℕ
  op_witness_ids p opid = F.index.get p.index opid

  unfoldable pub ops_by_witness_id : PileFs F → ℕ → List ℕ
  ops_by_witness_id p wid = F.stand.get p.stand wid

  unfoldable pub seal : PileFs F → CellAddr → Option S.Definition
  seal p addr = F.keep.get p.keep addr

  -- `for no in 0..up_to`, by the rounds left, with the map built so far.
  pub seals_from : PileFs F → ℕ → ℕ → ℕ → List (ℕ × S.Definition) → List (ℕ × S.Definition)
  seals_from p opid num zero defs = defs
  seals_from p opid num (suc left) defs =
      seals_from p opid (num + 1) left (put_seal num (F.keep.get p.keep (cell_addr opid num)) defs)

  unfoldable pub seals : PileFs F → ℕ → ℕ → List (ℕ × S.Definition)
  unfolding seals_from
  seals p opid up_to = seals_from p opid 0 up_to []

  unfoldable pub add_witness :
      PileFs F → ℕ → ℕ → S.Published → S.Client → WitnessStatus → Option (PileFs F)
  add_witness p opid wid published anchor status = do
    let index = F.index.push p.index opid wid
    let stand = F.stand.push p.stand wid opid
    hoard ← F.hoard.insert p.hoard wid anchor
    cache ← F.cache.insert p.cache wid published
    mine ←
        (if F.mine.contains_key p.mine wid
          then some p.mine
          else F.mine.insert_only p.mine wid status)
    some (record {
      hoard = hoard;
      cache = cache;
      keep = p.keep;
      index = index;
      stand = stand;
      mine = mine;
    })

  pub insert_seals : F.keep.File → ℕ → List (ℕ × S.Definition) → Option F.keep.File
  insert_seals keep opid [] = some keep
  insert_seals keep opid ((num, def) ∷ defs) = do
    keep' ← F.keep.insert keep (cell_addr opid num) def
    insert_seals keep' opid defs

  unfoldable pub add_seals : PileFs F → ℕ → List (ℕ × S.Definition) → Option (PileFs F)
  unfolding insert_seals
  add_seals p opid defs = do keep ← insert_seals p.keep opid defs; some (record p { keep = keep })

  unfoldable pub update_witness_status : PileFs F → ℕ → WitnessStatus → Option (PileFs F)
  update_witness_status p wid status = do
    mine ← F.mine.update_only p.mine wid status
    some (record p { mine = mine })

  unfoldable pub commit_transaction : PileFs F → PileFs F
  commit_transaction p = record p { mine = F.mine.commit_transaction p.mine }

  witnesses_of : PileFs F → List (ℕ × S.Client) → Option (List (Witness S))
  witnesses_of p [] = some []
  witnesses_of p ((wid, client) ∷ rest) = do
    published ← F.cache.get p.cache wid
    status ← F.mine.get p.mine wid
    let opids = F.stand.get p.stand wid
    witnesses ← witnesses_of p rest
    some (
        record { id = wid; published = published; client = client; status = status; opids = opids }
        ∷ witnesses)

  unfoldable pub witnesses : PileFs F → Option (List (Witness S))
  unfolding witnesses_of
  witnesses p = witnesses_of p (F.hoard.iter p.hoard)

  unfoldable pub op_relations : PileFs F → ℕ → ℕ → OpRels S
  unfolding seals
  op_relations p opid up_to = record {
    opid = opid;
    witness_ids = F.index.get p.index opid;
    defines = seals p opid up_to;
  }

  -- `impl Pile for PileFs`.
  abbrev pub pile_fs : Pile S
  pile_fs = record {
    Store = PileFs F;
    pub_witness = pub_witness;
    has_witness = has_witness;
    cli_witness = cli_witness;
    witness_status = witness_status;
    witness_ids = witness_ids;
    witnesses = witnesses;
    op_witness_ids = op_witness_ids;
    ops_by_witness_id = ops_by_witness_id;
    seal = seal;
    seals = seals;
    op_relations = op_relations;
    add_witness = add_witness;
    add_seals = add_seals;
    update_witness_status = update_witness_status;
    commit_transaction = commit_transaction;
  }
