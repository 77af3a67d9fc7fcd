-- ===== src/Tests/Samples.antt =====
-- Concrete instances of the parameters: seals that are numbers, files that are lists, a ledger that
-- records its calls, a stream of numbers, and a pile of two witnesses.
use rgb_std.Base.{
  ℕ, ◌+◌, ◌%◌, refl, Option, none, some, List, [], ◌∷◌, ◌++◌, arith, ◌==◌, ==_iff, if◌then◌else◌,
  is_some, lookup, keys, contains, Eq, nat_eq, true, Result, ok, err,
}
use rgb_std.Status.{WitnessStatus, mined, archived}
use rgb_std.Seals.{RgbSeal, CellAddr, cell_addr_eq}
use rgb_std.Pile.{Pile, PileLaws}
use rgb_std.Ledger.{Ledger}
use rgb_std.Wire.{Wire}
use rgb_std.Contract.{Contract}
use rgb_std.PileFs.{Files, PileFs, pile_fs}
use rgb_std.PileFs.Aora.{AoraMap, AoraMapLaws, AoraIndex, AoraIndexLaws, AuraMap, AuraMapLaws}
use rgb_std.PileFs.Valid.{FilesLaws, IsValid}
use rgb_std.PileFs.Refines.{pile_fs_laws}

-- An even definition gives its seal, an odd one is resolved by a witness.
abbrev pub numbers : RgbSeal
numbers = record {
  Definition = ℕ;
  Client = ℕ;
  Published = ℕ;
  Seal = ℕ;
  client_eq = nat_eq;
  pub_id = λ p. p;
  merge = λ a b. some (a + b);
  auth_token = λ d. d;
  to_src = λ d. if d % 2 == 0 then some d else none;
  resolve = λ d w. d + w;
}

module _ {K V : Type 0} ⦃e : Eq K⦄ where
  abbrev find : List (K × V) → K → Option V
  find [] k = none
  find ((k', v) ∷ f) k = if e.beq k' k then some v else find f k

  abbrev aora_map : AoraMap K V
  aora_map = record {
    File = List (K × V);
    create_new = [];
    contains_key = λ f k. is_some (find f k);
    get = find;
    insert = λ f k v. some (if is_some (find f k) then f else (k, v) ∷ f);
    iter = λ f. f;
  }

  aora_map_laws : AoraMapLaws ⦃e = e⦄ aora_map
  aora_map_laws = record {
    get-create_new = λ k. refl;
    contains_key-get = λ f k. refl;
    get-insert = λ f g k j v eq. ground (arith, eq, e.beq_iff k j);
    insert_new = λ f k v h. (_, refl);
    insert_same = λ f k v h. (_, refl);
  }

abbrev values : List (ℕ × ℕ) → ℕ → List ℕ
values [] k = []
values ((k', v) ∷ f) k = if k' == k then v ∷ values f k else values f k

abbrev aora_index : AoraIndex
aora_index = record {
  File = List (ℕ × ℕ);
  create_new = [];
  keys = keys;
  get = values;
  push = λ f k v. (k, v) ∷ f;
}

aora_index_laws : AoraIndexLaws aora_index
aora_index_laws = record {
  keys-create_new = refl;
  get-create_new = λ k. refl;
  keys-push = λ f k v j. refl;
  get-push = λ f k v j a. ground arith;
}

abbrev aura_map : AuraMap WitnessStatus
aura_map = record {
  File = List (ℕ × WitnessStatus);
  create_new = [];
  contains_key = λ f k. is_some (lookup k f);
  get = λ f k. lookup k f;
  insert_only = λ f k v. if is_some (lookup k f) then none else some ((k, v) ∷ f);
  update_only = λ f k v. if is_some (lookup k f) then some ((k, v) ∷ f) else none;
  commit_transaction = λ f. f;
}

aura_map_laws : AuraMapLaws aura_map
aura_map_laws = record {
  get-create_new = λ k. refl;
  contains_key-get = λ f k. refl;
  get-insert_only = λ f k v h. ((k, v) ∷ f, ground (arith, h), λ j. ground (arith, ==_iff k j));
  get-update_only = λ f k v h. ((k, v) ∷ f, ground (arith, h), λ j. ground (arith, ==_iff k j));
  get-commit_transaction = λ f j. refl;
}

abbrev pub files : Files numbers
files = record {
  hoard = aora_map;
  cache = aora_map;
  keep = aora_map;
  index = aora_index;
  stand = aora_index;
  mine = aura_map;
}

pub files_laws : FilesLaws files
files_laws = record {
  hoard = aora_map_laws;
  cache = aora_map_laws;
  keep = aora_map_laws;
  index = aora_index_laws;
  stand = aora_index_laws;
  mine = aura_map_laws;
}

abbrev pub pile : Pile numbers
pile = pile_fs files

abbrev pub laws : PileLaws pile
laws = pile_fs_laws files_laws

abbrev pub cell : ℕ → ℕ → CellAddr
cell opid pos = record { opid = opid; pos = pos }

-- Operation 1 with the witnesses 4, mined at height 100, and 6, archived; operation 2 with 6 only;
-- two seals of operation 1.
abbrev pub two_witnesses : PileFs files
two_witnesses = record {
  hoard = (4, 40) ∷ (6, 60) ∷ [];
  cache = (4, 4) ∷ (6, 6) ∷ [];
  keep = (cell 1 0, 8) ∷ (cell 1 1, 9) ∷ [];
  index = (1, 4) ∷ (1, 6) ∷ (2, 6) ∷ [];
  stand = (4, 1) ∷ (6, 1) ∷ (6, 2) ∷ [];
  mine = (4, mined 100) ∷ (6, archived) ∷ [];
}

pub two_witnesses-IsValid : IsValid two_witnesses
two_witnesses-IsValid = record {
  same_mine = λ w. ground arith;
  same_cache = λ w. ground arith;
  same_keys = λ w. ground arith;
  index_known = λ o w h. ground arith;
  mirrored = λ o w. ground arith;
}

-- Each call is recorded; operation 0 is the ancestor of all others.
abbrev pub ledger : Ledger
ledger = record {
  Log = List ℕ;
  Error = ℕ;
  Value = ℕ;
  Atom = ℕ;
  StockError = ℕ;
  IssueError = ℕ;
  SemanticError = ℕ;
  VerifyError = ℕ;
  Articles = ℕ;
  CallParams = ℕ;
  Operation = ℕ;
  VerifiedOperation = ℕ;
  rollback = λ log ops. (ops ++ log, ok tt);
  forward = λ log ops. (ops ++ log, ok tt);
  call = λ log o. (o ∷ log, ok o);
  operation = λ log o. o;
  commit_transaction = λ log. log;
  apply = λ log o. (o ∷ log, ok tt);
  is_valid = λ log o. contains log o;
  ancestors = λ log o. if o == 0 then [] else 0 ∷ [];
  owned = λ log. (7, (cell 1 0, 50) ∷ (cell 1 1, 51) ∷ []) ∷ [];
  global = λ log. (8, (cell 2 0, 52) ∷ []) ∷ [];
  aggregated = λ log. (9, 53) ∷ [];
  auth = λ log a. none;
  articles = λ log. 77;
  name = λ a. a;
  consensus = λ a. 1;
  testnet = λ a. true;
}

abbrev pub contract : Contract pile ledger
contract = record { contract_id = 3; ledger = []; pile = two_witnesses }

abbrev next : List ℕ → Result ℕ (ℕ × List ℕ)
next [] = err 0
next (x ∷ stream) = ok (x, stream)

abbrev skip : List ℕ → Result ℕ (Unit {0} × List ℕ)
skip [] = err 0
skip (x ∷ stream) = ok (tt, stream)

-- An operation and a count take one number each.
abbrev pub wire : Wire numbers
wire = record {
  Stream = List ℕ;
  DecodeError = ℕ;
  Operation = ℕ;
  Semantics = Unit {0};
  SigBlob = Unit {0};
  Version = Unit {0};
  ContractMeta = Unit {0};
  Codex = Unit {0};
  Issue = ℕ;
  opid = λ o. o;
  u8 = next;
  u16 = next;
  u32 = next;
  operation = next;
  seals = λ stream. ok ([], stream);
  witness = λ stream. ok (none, stream);
  semantics = skip;
  sig = λ stream. ok (none, stream);
  version = skip;
  meta = skip;
  codex = skip;
  read_raw = λ n. skip;
  extend = λ a b. some (a ++ b);
  too_many_seals = λ o. 1;
  reserved = λ v. skip;
  contract_id = next;
  is_integrity = λ e. e == 2;
  future_version = 3;
  too_many_ops = λ n. 4;
  genesis_operation = λ i. i;
}

abbrev pub no_seals : ℕ → List (ℕ × ℕ)
no_seals o = []
