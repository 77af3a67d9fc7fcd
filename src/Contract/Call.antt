-- ===== src/Contract/Call.antt =====
-- `Contract::call` of src/contract.rs: a new operation enters the ledger, and its seals the pile. The
-- two assertions, which a release build leaves out, are not modelled.
use rgb_std.Base.{
  ℕ, ◌≡◌, refl, false, Option, none, some, List, ◌==◌, ltb, if◌then◌else◌, lookup, ◌>>=◌,
  IsDistinct, Result, ok, err,
}
use rgb_std.Seals.{RgbSeal}
use rgb_std.Pile.{Pile}
use rgb_std.Ledger.{Ledger}
use rgb_std.Contract.{Contract}
use rgb_std.PileFs.{Files, pile_fs, cell_addr, seal, seals}
use rgb_std.PileFs.Valid.{FilesLaws}
use rgb_std.PileFs.Seals.{seals-add_seals}

module _ {S : RgbSeal} (P : Pile S) (L : Ledger) where
  unfoldable pub called :
      Contract P L
      → List (ℕ × S.Definition)
      → L.Log × Result L.Error ℕ
      → Option (Contract P L × Result L.Error L.Operation)
  called c seals (log, err e) = some (record c { ledger = log }, err e)
  called c seals (log, ok opid) = do
    let operation = L.operation log opid
    pile ← P.add_seals c.pile opid seals
    some (record c { ledger = log; pile = pile }, ok operation)

  unfoldable pub call :
      Contract P L
      → L.CallParams
      → List (ℕ × S.Definition)
      → Option (Contract P L × Result L.Error L.Operation)
  unfolding called
  call c params seals = called c seals (L.call c.ledger params)

module _ {S : RgbSeal} {F : Files S} (laws : FilesLaws F) (L : Ledger) where
  -- A call that the ledger accepts, over the file pile, with seals for distinct outputs of an
  -- operation whose outputs have none: it returns the operation that the ledger has under the new
  -- id, and the seals of this operation read back as given, those of all others as they were.
  pub seals-call :
      (c : Contract (pile_fs F) L) (params : L.CallParams) (defs : List (ℕ × S.Definition))
      (log : L.Log) (opid : ℕ)
      → L.call c.ledger params ≡ (log, ok opid)
      → IsDistinct defs
      → ((j : ℕ) → seal F c.pile (cell_addr opid j) ≡ none)
      → (c' : Contract (pile_fs F) L) × (call (pile_fs F) L c params defs
          ≡ some (c', ok (L.operation log opid)))
        × (c'.ledger ≡ log)
        × ((up_to j : ℕ)
            → lookup j (seals F c'.pile opid up_to) ≡ (if ltb j up_to then lookup j defs else none))
        × ((o up_to j : ℕ)
            → (opid == o) ≡ false
            → lookup j (seals F c'.pile o up_to) ≡ lookup j (seals F c.pile o up_to))
  unfolding call
  seals-call c params defs log opid accepted d fresh =
      let (q, e, own, others) = seals-add_seals laws c.pile opid defs d fresh in
      (record c { ledger = log; pile = q }, rw (accepted, e), refl, own, others)
