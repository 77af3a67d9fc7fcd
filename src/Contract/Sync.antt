-- ===== src/Contract/Sync.antt =====
-- `Contract::sync` of src/contract.rs, step by step. The first `debug_assert` is left out, as it is
-- from a release build; the two others are theorems.
pub mod Steps
pub mod Exact
pub mod Statuses
pub mod Ends
use rgb_std.Base.{
  ℕ, ◌≡◌, Bool, true, false, not, ◌&&◌, Option, none, some, List, [], ◌∷◌, ◌==◌, if◌then◌else◌,
  ◌>>=◌, insert, keys, add, Result, ok, err,
}
use rgb_std.Status.{WitnessStatus, eq_status, is_valid}
use rgb_std.Seals.{RgbSeal}
use rgb_std.Pile.{Pile}
use rgb_std.Ledger.{Ledger}
use rgb_std.Contract.{Contract}
use rgb_std.Contract.Status.{witness_status}

abbrev pub Changes : Type 0
Changes = List (ℕ × WitnessStatus)

-- `old_status.is_valid() == new_status.is_valid()`.
abbrev pub same_bool : Bool → Bool → Bool
same_bool true b = b
same_bool false b = not b

-- Step 4: the body of the loop, on `roll_back` and `forward`.
abbrev pub sort_op : WitnessStatus → WitnessStatus → ℕ → List ℕ × List ℕ → List ℕ × List ℕ
sort_op old_status new_status opid (roll_back, forward) =
    if same_bool (is_valid old_status) (is_valid new_status)
    then (roll_back, forward)
    else if is_valid new_status
    then (roll_back, add opid forward)
    else (add opid roll_back, forward)

module _ {S : RgbSeal} (P : Pile S) where
  -- Step 1: the body of the loop, and the loop.
  unfoldable pub note_change : P.Store → ℕ → WitnessStatus → Changes → Option Changes
  note_change s wid status affected = if not (P.has_witness s wid) then some affected else do
    prev_status ← P.witness_status s wid
    some (if eq_status status prev_status then affected else insert wid status affected)

  unfoldable pub sanitize : P.Store → Changes → Changes → Option Changes
  sanitize s [] affected = some affected
  sanitize s ((wid, status) ∷ changed) affected = do
    affected' ← note_change s wid status affected
    sanitize s changed affected'

  -- Step 2: the inner and the outer loop.
  unfoldable pub note_ops : P.Store → List ℕ → Changes → Option Changes
  note_ops s [] affected_ops = some affected_ops
  note_ops s (opid ∷ opids) affected_ops = do
    op_status ← witness_status P s opid
    note_ops s opids (insert opid op_status affected_ops)

  unfoldable pub collect_ops : P.Store → List ℕ → Changes → Option Changes
  collect_ops s [] affected_ops = some affected_ops
  collect_ops s (wid ∷ wids) affected_ops = do
    affected_ops' ← note_ops s (P.ops_by_witness_id s wid) affected_ops
    collect_ops s wids affected_ops'

  -- Step 3.
  unfoldable pub update_all : P.Store → Changes → Option P.Store
  update_all s [] = some s
  update_all s ((wid, status) ∷ affected) = do
    s' ← P.update_witness_status s wid status
    update_all s' affected

  -- Step 4: the loop.
  unfoldable pub sort_ops : P.Store → Changes → List ℕ × List ℕ → Option (List ℕ × List ℕ)
  sort_ops s [] sets = some sets
  sort_ops s ((opid, old_status) ∷ affected_ops) sets = do
    new_status ← witness_status P s opid
    sort_ops s affected_ops (sort_op old_status new_status opid sets)

  -- Steps 1 to 4: the updated pile with `roll_back` and `forward`.
  unfoldable pub prepare : P.Store → Changes → Option (P.Store × (List ℕ × List ℕ))
  prepare s changed = do
    affected_wids ← sanitize s changed []
    affected_ops ← collect_ops s (keys affected_wids) []
    s' ← update_all s affected_wids
    sets ← sort_ops s' affected_ops ([], [])
    some (s', sets)

  module _ (L : Ledger) where
    -- Step 5.
    forward_ops :
        Contract P L
        → List ℕ
        → L.Log × Result L.Error (Unit {0})
        → Contract P L × Result L.Error (Unit {0})
    forward_ops c forward (log, err e) = (record c { ledger = log }, err e)
    forward_ops c forward (log, ok _) =
        (record c { ledger = log; pile = P.commit_transaction c.pile }, ok tt)

    roll_back_ops :
        Contract P L
        → List ℕ
        → L.Log × Result L.Error (Unit {0})
        → Contract P L × Result L.Error (Unit {0})
    unfolding forward_ops
    roll_back_ops c forward (log, err e) = (record c { ledger = log }, err e)
    roll_back_ops c forward (log, ok _) =
        forward_ops (record c { ledger = log; pile = P.commit_transaction c.pile }) forward
          (L.forward log forward)

    pub sync : Contract P L → Changes → Option (Contract P L × Result L.Error (Unit {0}))
    unfolding roll_back_ops
    sync c changed = do
      prepared ← prepare c.pile changed
      let (s', (roll_back, forward)) = prepared
      some (roll_back_ops (record c { pile = s' }) forward (L.rollback c.ledger roll_back))
