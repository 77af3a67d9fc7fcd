-- ===== src/Contract/State/Direct.antt =====
-- What `Contract::state` of src/contract.rs computes, with no cache: the reference that the code
-- with its two caches is compared to.
use rgb_std.Base.{ℕ, Option, none, some, List, [], ◌∷◌, ◌++◌, ◌>>=◌, put}
use rgb_std.Status.{WitnessStatus, worst}
use rgb_std.Seals.{RgbSeal, CellAddr}
use rgb_std.Pile.{Pile}
use rgb_std.Ledger.{Ledger}
use rgb_std.Contract.{Contract}
use rgb_std.Contract.Status.{witness_status}
use rgb_std.Contract.State.{OwnedState, ImmutableState, ContractState, worst_ancestor, owned_at}

module _ {S : RgbSeal} (P : Pile S) (L : Ledger) (c : Contract P L) where
  -- The same computations with no cache.
  unfoldable pub direct_status : ℕ → WitnessStatus → Option WitnessStatus
  direct_status opid other = do st ← worst_ancestor P L c opid; some (worst st other)

  unfoldable pub direct_copies :
      CellAddr → L.Value → S.Definition → List ℕ → Option (List (OwnedState S.Seal L.Value))
  direct_copies addr value seal [] = some []
  direct_copies addr value seal (wid ∷ wids) = do
    st ← P.witness_status c.pile wid
    status ← direct_status addr.opid st
    rest ← direct_copies addr value seal wids
    some (owned_at P L c addr (S.resolve seal wid) value status ∷ rest)

  unfoldable pub direct_resolved_cell :
      CellAddr → L.Value → S.Definition → Option S.Seal → Option (List (OwnedState S.Seal L.Value))
  direct_resolved_cell addr value seal (some src) = do
    st ← witness_status P c.pile addr.opid
    status ← direct_status addr.opid st
    some (owned_at P L c addr src value status ∷ [])
  direct_resolved_cell addr value seal none =
      direct_copies addr value seal (P.op_witness_ids c.pile addr.opid)

  unfoldable pub direct_owned_cell :
      CellAddr → L.Value → Option S.Definition → Option (List (OwnedState S.Seal L.Value))
  direct_owned_cell addr value none = some []
  direct_owned_cell addr value (some seal) = direct_resolved_cell addr value seal (S.to_src seal)

  unfoldable pub direct_owned_cells :
      List (CellAddr × L.Value) → Option (List (OwnedState S.Seal L.Value))
  direct_owned_cells [] = some []
  direct_owned_cells ((addr, value) ∷ cells) = do
    first ← direct_owned_cell addr value (P.seal c.pile addr)
    rest ← direct_owned_cells cells
    some (first ++ rest)

  unfoldable pub direct_owned :
      List (ℕ × List (CellAddr × L.Value))
      → List (ℕ × List (OwnedState S.Seal L.Value))
      → Option (List (ℕ × List (OwnedState S.Seal L.Value)))
  direct_owned [] owned = some owned
  direct_owned ((name, cells) ∷ states) owned = do
    cells' ← direct_owned_cells cells
    direct_owned states (put name cells' owned)

  unfoldable pub direct_immutable_cells :
      List (CellAddr × L.Atom) → Option (List (ImmutableState L.Atom))
  direct_immutable_cells [] = some []
  direct_immutable_cells ((addr, atom) ∷ cells) = do
    st ← witness_status P c.pile addr.opid
    status ← direct_status addr.opid st
    rest ← direct_immutable_cells cells
    some (record { addr = addr; atom = atom; status = status } ∷ rest)

  unfoldable pub direct_immutable :
      List (ℕ × List (CellAddr × L.Atom))
      → List (ℕ × List (ImmutableState L.Atom))
      → Option (List (ℕ × List (ImmutableState L.Atom)))
  direct_immutable [] immutable = some immutable
  direct_immutable ((name, cells) ∷ states) immutable = do
    cells' ← direct_immutable_cells cells
    direct_immutable states (put name cells' immutable)

  unfoldable pub direct_state : Option (ContractState S.Seal L.Value L.Atom)
  direct_state = do
    owned ← direct_owned (L.owned c.ledger) []
    immutable ← direct_immutable (L.global c.ledger) []
    some (record { immutable = immutable; owned = owned; aggregated = L.aggregated c.ledger })
