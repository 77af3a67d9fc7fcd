-- ===== src/Tests/Contracts.antt =====
-- The theorems on the statuses of operations, `sync`, `include` and the reader of operations, at the
-- contract with two witnesses.
use rgb_std.Base.{
  ℕ, ◌≡◌, ◌⊎◌, inl, refl, true, false, ◌&&◌, ◌||◌, none, some, List, [], ◌∷◌, arith, ◌==◌,
  if◌then◌else◌, insert, add, or_else, contains, keys, Result, ok,
}
use rgb_std.Base.Results.{◌>>=◌}
use rgb_std.Status.{WitnessStatus, genesis, mined, tentative, archived, is_valid, eq_status, best}
use rgb_std.Pile.{SameLinks}
use rgb_std.PileFs.{
  PileFs, has_witness, op_witness_ids, ops_by_witness_id, add_witness, update_witness_status,
  commit_transaction,
}
use rgb_std.PileFs.Refines.{pile_fs_laws}
use rgb_std.Contract.{Contract}
use rgb_std.Contract.Status.{witness_status, retrieve}
use rgb_std.Contract.Status.Best.{
  BestOf, witness_status-BestOf, Retrieves, AllCanonical, retrieve-Retrieves,
}
use rgb_std.Contract.Sync.{
  Changes, note_change, sanitize, note_ops, collect_ops, update_all, sort_ops, prepare, sync,
}
use rgb_std.Contract.Sync.Exact.{IsExact, prepare-IsExact}
use rgb_std.Contract.Sync.Statuses.{Agree, prepare_statuses}
use rgb_std.Contract.Sync.Ends.{Ends, sync-Ends}
use rgb_std.Contract.Include.{include, include_lem}
use rgb_std.Contract.Reader.{OperationSeals, read_item}
use rgb_std.Contract.Reader.Count.{with_op, ended, started, read_all, read_items, read_all-started}
use rgb_std.Tests.Samples.{
  files, pile, laws, two_witnesses, two_witnesses-IsValid, ledger, contract, wire, no_seals,
}

witness_status-BestOf_example :
    (st : WitnessStatus) × (witness_status pile two_witnesses 1 ≡ some st)
    × (((pile.op_witness_ids two_witnesses 1 ≡ []) × (st ≡ genesis))
        ⊎ ((w : ℕ) × BestOf laws two_witnesses (pile.op_witness_ids two_witnesses 1) (st, w)))
unfolding pile_fs_laws
witness_status-BestOf_example = witness_status-BestOf laws two_witnesses 1 two_witnesses-IsValid

two_witnesses-AllCanonical : AllCanonical laws two_witnesses
unfolding rgb_std.PileFs.witness_status
two_witnesses-AllCanonical w st e = ground arith

retrieve-Retrieves_example :
    Retrieves laws two_witnesses
      (pile.op_witness_ids two_witnesses 1)
      (retrieve pile two_witnesses 1)
unfolding pile_fs_laws
retrieve-Retrieves_example =
    retrieve-Retrieves laws two_witnesses 1 two_witnesses-IsValid two_witnesses-AllCanonical

-- The witness of operation 1 is reorganised out, and the archived one is mined.
abbrev reorganised : Changes
reorganised = (4, archived) ∷ (6, mined 101) ∷ (9, archived) ∷ []

prepare-IsExact_example :
    (t : PileFs files) × (sets : List ℕ × List ℕ) × (prepare pile two_witnesses reorganised
      ≡ some (t, sets))
    × laws.IsValid t
    × SameLinks pile two_witnesses t
    × IsExact laws two_witnesses t sets
unfolding pile_fs_laws
prepare-IsExact_example = prepare-IsExact laws two_witnesses reorganised two_witnesses-IsValid

-- What `prepare` leaves for those changes.
abbrev prepared : PileFs files
prepared = record two_witnesses { mine = (6, mined 101) ∷ (4, archived) ∷ two_witnesses.mine }

prepare_example : prepare pile two_witnesses reorganised ≡ some (prepared, ([], 2 ∷ []))
unfolding prepare sanitize note_change collect_ops note_ops update_all sort_ops has_witness
    rgb_std.PileFs.witness_status eq_status insert ops_by_witness_id op_witness_ids
    update_witness_status is_valid best add witness_status
prepare_example = refl

prepare_statuses_example :
    ((w : ℕ) (st : WitnessStatus)
      → pile.has_witness two_witnesses w ≡ true
      → contains (keys reorganised) w ≡ true
      → Agree w st reorganised
      → pile.witness_status prepared w ≡ some st)
    × ((w : ℕ)
        → contains (keys reorganised) w ≡ false
        → pile.witness_status prepared w ≡ pile.witness_status two_witnesses w)
unfolding pile_fs_laws
prepare_statuses_example =
    prepare_statuses laws two_witnesses prepared reorganised ([], 2 ∷ []) two_witnesses-IsValid
      prepare_example

sync-Ends_example :
    (t : PileFs files) × (roll_back forward : List ℕ) × (end : Contract pile ledger
      × Result ℕ (Unit {0}))
    × (sync pile ledger contract reorganised ≡ some end)
    × IsExact laws two_witnesses t (roll_back, forward)
    × Ends laws ledger contract t roll_back forward end
unfolding pile_fs_laws
sync-Ends_example = sync-Ends laws ledger contract reorganised two_witnesses-IsValid

include_lem_example :
    (c' : Contract pile ledger) × (include pile contract 2 50 5 ≡ some c')
    × laws.IsValid c'.pile
    × (c'.ledger ≡ contract.ledger)
    × ((o' w : ℕ)
        → contains (pile.op_witness_ids c'.pile o') w
          ≡ (2 == o' && 5 == w || contains (pile.op_witness_ids two_witnesses o') w))
    × ((w : ℕ)
        → pile.witness_status c'.pile w ≡ (
            if 5 == w
            then or_else (pile.witness_status two_witnesses w) (some tentative)
            else pile.witness_status two_witnesses w))
unfolding pile_fs_laws
include_lem_example = include_lem laws contract 2 50 5 two_witnesses-IsValid (inl refl)

abbrev included : Contract pile ledger
included = record contract {
  pile = record two_witnesses {
    hoard = (5, 50) ∷ two_witnesses.hoard;
    cache = (5, 5) ∷ two_witnesses.cache;
    index = (2, 5) ∷ two_witnesses.index;
    stand = (5, 2) ∷ two_witnesses.stand;
    mine = (5, tentative) ∷ two_witnesses.mine;
  };
}

abbrev genesis_op : OperationSeals wire
genesis_op = record { operation = 10; defined_seals = []; witness = none }

read_genesis : (stream : List ℕ) → read_item wire no_seals (10 ∷ stream) ≡ ok (genesis_op, stream)
unfolding read_item
read_genesis stream = refl

read_all-started_example :
    read_all wire no_seals 5 (started wire no_seals (10 ∷ 2 ∷ 11 ∷ 12 ∷ 13 ∷ [])) ≡ (
      read_items wire no_seals 2 (11 ∷ 12 ∷ 13 ∷ []) >>= λ read.
      ok (with_op wire no_seals genesis_op (ended wire no_seals read)))
read_all-started_example =
    read_all-started wire no_seals 5 (10 ∷ 2 ∷ 11 ∷ 12 ∷ 13 ∷ []) (2 ∷ 11 ∷ 12 ∷ 13 ∷ [])
      (11 ∷ 12 ∷ 13 ∷ []) genesis_op 2 (read_genesis _) refl (omega arith) (omega arith)
